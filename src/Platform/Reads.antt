-- ===== src/Platform/Reads.antt =====
-- The analytics reads of server/okk_mcp/platform_client.py: repeats after a transient failure, one
-- renewal of an expired access token, and the meaning of the status.
pub mod Attempts
pub mod Paths
pub mod Renewed
use okk_analytics_codex_plug.Common.{
  ℕ, String, Bool, true, false, not, ◌||◌, List, [], ◌∷◌, ◌==◌, leb, str_eq, is_some, starts_with,
  find?, if◌then◌else◌,
}
use okk_analytics_codex_plug.Errors.{
  Result, ok, raised, authentication_error, unavailable, not_available, value_error,
}
use okk_analytics_codex_plug.Effect.{
  Host, Action, Answer, Params, dropped, failed, response, Response, Request, read, pure, lift,
  gets, ◌>>=◌, ◌>>◌, send, json_body,
}
use okk_analytics_codex_plug.Json.{Row}
use okk_analytics_codex_plug.Platform.Account.{responded}
use okk_analytics_codex_plug.Platform.Rotation.{rotate_session}
use okk_analytics_codex_plug.Platform.Context.{AccountContext, live_context}

-- Pauses in milliseconds before the second and the third attempt.
abbrev read_retry_delays : List ℕ
read_retry_delays = 300 ∷ 1000 ∷ []

unfoldable pub transient_status : ℕ → Bool
transient_status status = status == 502 || status == 503 || status == 504

-- an answer after which the read is repeated
unfoldable pub is_transient : Answer → Bool
unfolding transient_status
is_transient dropped = true
is_transient failed = false
is_transient (response r) = transient_status r.status

unfoldable pub renewed_for : ℕ → List (ℕ × String × String) → String × String
renewed_for sid [] = ("", "")
renewed_for sid ((j, expired_access, renewed_access) ∷ rest) =
    if j == sid then (expired_access, renewed_access) else renewed_for sid rest

-- `_current_access`
unfoldable pub current_access : AccountContext → List (ℕ × String × String) → String
unfolding renewed_for
current_access context cache =
    let entry = renewed_for context.session_id cache in
    if str_eq context.access_token entry.0 then entry.1 else context.access_token

-- `_validate_read_path`
unfoldable pub validate_read_path : String → Result (Unit {0})
validate_read_path path =
    if not (starts_with path "/") || is_some (find? path "..") || starts_with path "/auth/"
    then raised (value_error "Only allowlisted OKK analytics GET paths are permitted")
    else ok tt

-- the status checks of `get_with_context`
unfoldable pub read_body : Response → Result String
read_body r =
    if r.status == 401
    then raised (authentication_error "OKK session is no longer valid")
    else if r.status == 403 || r.status == 404 || r.status == 409
    then raised (not_available "Requested OKK data is not available")
    else if leb 500 r.status
    then raised (unavailable "OKK analytics is temporarily unavailable")
    else if leb 400 r.status
    then raised (value_error "OKK rejected the analytics filter")
    else ok r.body

-- the status checks of `_post_lookup`
unfoldable pub lookup_body : String → Response → Result String
lookup_body contract r =
    if r.status == 401
    then raised (authentication_error "OKK session is no longer valid")
    else if r.status == 404
    then raised (unavailable contract)
    else if r.status == 403 || r.status == 409
    then raised (not_available "Requested OKK data is not available")
    else if leb 500 r.status
    then raised (unavailable "OKK analytics is temporarily unavailable")
    else if leb 400 r.status
    then raised (value_error "OKK rejected the analytics filter")
    else ok r.body

unfoldable pub is_unauthorized : Answer → Bool
is_unauthorized (response r) = r.status == 401
is_unauthorized _ = false

module _ (host : Host) where
  -- one round for each pause, and the last attempt without one
  unfoldable pub send_attempts : List ℕ → Request → Action Answer
  send_attempts [] request = send host request
  send_attempts (delay ∷ delays) request = do
    answer ← send host request
    if is_transient answer then send_attempts delays request else pure answer

  -- `_send_read`
  unfoldable pub send_read : String → String → Params → String → Action Answer
  unfolding send_attempts is_transient
  send_read method path params access_token =
      send_attempts read_retry_delays (read method path params access_token)

  -- `_read`
  unfoldable pub read_once_renewed : AccountContext → String → String → Params → Action Answer
  read_once_renewed context method path params = do
    access_token ← gets (λ w. current_access context w.renewed)
    answer ← send_read method path params access_token
    if is_unauthorized answer
        then (do
          renewed ← rotate_session host context.session_id access_token
          send_read method path params renewed.0)
        else pure answer

  -- `get_with_context`
  unfoldable pub get_with_context : AccountContext → String → Params → Action String
  get_with_context context path params = do
    lift (validate_read_path path)
    answer ← read_once_renewed context "GET" path params
    r ← lift (responded "OKK analytics is temporarily unavailable" answer)
    lift (read_body r)

  -- `get`
  unfoldable pub get : ℕ → String → Params → Action String
  get sid path params = do
    lift (validate_read_path path)
    context ← live_context host sid
    get_with_context context path params

  -- `_post_lookup`
  unfoldable pub post_lookup : AccountContext → String → Row → String → Action String
  post_lookup context path body contract = do
    answer ← read_once_renewed context "POST" path (json_body body)
    r ← lift (responded "OKK analytics is temporarily unavailable" answer)
    lift (lookup_body contract r)

  -- `phone_lookup_with_context` and `transcript_search_with_context`
  unfoldable pub phone_lookup_with_context : AccountContext → Row → Action String
  phone_lookup_with_context context body =
      post_lookup context "/calls/phone-lookup" body
        "OKK phone lookup contract is temporarily unavailable"

  unfoldable pub transcript_search_with_context : AccountContext → Row → Action String
  transcript_search_with_context context body =
      post_lookup context "/calls/transcript-search" body
        "OKK transcript search contract is temporarily unavailable"
