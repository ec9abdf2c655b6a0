-- ===== src/Client/Refused.antt =====
-- The outcomes of a tool call (`get` of `BackendClient` in server/okk_mcp/backend_client.py).
use okk_analytics_codex_plug.Common.{ℕ, ◌≡◌, String, Bool, true, false, Option, none, some}
use okk_analytics_codex_plug.Errors.{
  Exc, Result, ok, raised, permission_error, authentication_error, unavailable, not_available,
  tool_call_limited, backend_unavailable, timeout_error,
}
use okk_analytics_codex_plug.Json.{Row, object, no_fields}
use okk_analytics_codex_plug.Effect.{Host, Stateful, uuid4}
use okk_analytics_codex_plug.Oauth.Types.{Settings}
use okk_analytics_codex_plug.Oauth.Token.{AccessToken}
use okk_analytics_codex_plug.Analytics.Adapter.{Call}
use okk_analytics_codex_plug.Analytics.Envelope.{Envelope}
use okk_analytics_codex_plug.Client.{ClientState, fresh_adapter, validated_context, client_get}
use okk_analytics_codex_plug.Client.Limit.{Redis, count_tool_call}

-- the exceptions of the platform client and of the time budget
unfoldable pub is_internal : Exc → Bool
is_internal (authentication_error message) = true
is_internal (unavailable message) = true
is_internal (not_available message) = true
is_internal (timeout_error message) = true
is_internal _ = false

abbrev pub IsOutward : Result Envelope → Type 0
IsOutward (ok e) = Unit
IsOutward (raised e) = is_internal e ≡ false

-- What the tools see of what the adapter returned or raised, under the id of the request.
pub record Means (id : String) (inner outer : Result Envelope) : Type 0 where
  pub shown : (e : Envelope) → inner ≡ ok e → outer ≡ ok (record e { request_id = some id })
  -- what OKK does not show becomes an answer without data that says so
  pub hidden :
      (m : String)
      → inner ≡ raised (not_available m)
      → (e : Envelope) × (outer ≡ ok e)
        × (e.status ≡ "not_available")
        × (e.content ≡ object no_fields)
        × (e.request_id ≡ some id)
  -- a refused session
  pub refused :
      (m : String)
      → inner ≡ raised (authentication_error m)
      → (n : String) × (outer ≡ raised (permission_error n))
  -- OKK cannot be reached
  pub down :
      (m : String)
      → inner ≡ raised (unavailable m)
      → (n : String) × (outer ≡ raised (backend_unavailable n))
  -- the time budget is spent
  pub late :
      (m : String)
      → inner ≡ raised (timeout_error m)
      → (n : String) × (outer ≡ raised (tool_call_limited n))
  -- every other exception stays
  pub other : (e : Exc) → is_internal e ≡ false → inner ≡ raised e → outer ≡ raised e

module _ (host : Host) (settings : Settings) (redis : Redis)
    (dispatch : ℕ → String → Row → Call Envelope) (uuid_text : ℕ → String) (seconds : ℕ) where
  abbrev get_tool : Option AccessToken → String → Row → Stateful (ClientState redis) Envelope
  get_tool = client_get host settings redis dispatch uuid_text seconds

  -- the count of a call under a token
  abbrev pub counted_call : AccessToken → redis.State → Result (Unit {0}) × redis.State
  counted_call token counters =
      count_tool_call host settings redis (uuid_text token.subject) seconds counters

  -- The outcome of one tool call from a state.
  pub record IsGuarded (token : Option AccessToken) (path : String) (params : Row)
      (state : ClientState redis) (out : Result Envelope × ClientState redis) : Type 0 where
    -- no exception of the platform client or of the time budget leaves the client
    pub outward : IsOutward out.0
    -- a call within the limit answers what the tool's method answered, or what its exception means
    pub meant :
        (t : AccessToken)
        → token ≡ some t
        → (counted_call t state.1).0 ≡ ok tt
        → Means
            (uuid_text (host.uuid state.0.draws))
            (dispatch t.subject path params
              (fresh_adapter (validated_context t) (uuid4 host state.0).1)).0
            out.0
    -- without a token nothing is counted, sent or drawn
    pub anonymous : token ≡ none → out.1 ≡ state
    -- a call that is over the limit ends there: it sends OKK nothing and writes nothing
    pub limited :
        (t : AccessToken) (e : Exc)
        → token ≡ some t
        → (counted_call t state.1).0 ≡ raised e
        → (out.0 ≡ raised e) × (out.1.0.sent ≡ state.0.sent) × (out.1.0.db ≡ state.0.db)

  abbrev MeantBy : AccessToken → String → Row → ClientState redis → Result Envelope → Type 0
  MeantBy t path params state =
      Means (uuid_text (host.uuid state.0.draws))
        (dispatch t.subject path params
          (fresh_adapter (validated_context t) (uuid4 host state.0).1)).0
