-- ===== src/Oauth/CodeGrant.antt =====
-- The authorization-code branch of `token_endpoint` in server/okk_mcp/oauth.py.
pub mod Invariance
pub mod Exchange
pub mod Replay
pub mod Once
use okk_analytics_codex_plug.Common.{
  ℕ, String, Bool, not, ◌&&◌, ◌||◌, Option, none, some, ◌==◌, leb, str_eq, is_some, rstrip_slash,
  if◌then◌else◌,
}
use okk_analytics_codex_plug.Models.{Client, Code, update_where}
use okk_analytics_codex_plug.Effect.{Host, Action, pure, gets, modify, ◌>>=◌, ◌>>◌, now, uuid4}
use okk_analytics_codex_plug.Platform.Context.{revoke_upstream}
use okk_analytics_codex_plug.Security.Pkce.{verify_pkce}
use okk_analytics_codex_plug.Oauth.Types.{Settings, Reply, oauth_error, TokenForm, given, value}
use okk_analytics_codex_plug.Oauth.Store.{
  find_code, set_tokens, revoke_where, invalid_grant, code_invalid, add_token_pair,
  token_pair_response,
}

-- `if not code or not redirect_uri or not code_verifier`
abbrev has_code_fields : TokenForm → Bool
has_code_fields form = given form.code && given form.redirect_uri && given form.code_verifier

abbrev pub code_hash : Host → TokenForm → String
code_hash host form = host.sha256_hex (value form.code)

-- The reasons to refuse a stored code that is not used yet, at the instant `at`.
unfoldable pub code_refused : Host → TokenForm → Code → ℕ → Bool
code_refused host form stored at =
    leb stored.expires_at at
    || not (str_eq stored.client_id form.client_id)
    || not (str_eq stored.redirect_uri (value form.redirect_uri))
    || not (verify_pkce host (value form.code_verifier) stored.code_challenge)
    || (given form.resource && not (str_eq (rstrip_slash (value form.resource)) stored.resource))

abbrev pub consume_code : String → ℕ → Action (Unit {0})
consume_code hash at = modify λ w. record w {
  db = record w.db {
    codes =
        update_where (λ c. str_eq c.code_hash hash) (λ c. record c { consumed_at = some at })
          w.codes;
  };
}

-- `if client.first_authorized_at is None: client.first_authorized_at = ...`
abbrev first_authorized : ℕ → Client → Client
first_authorized at c =
    if is_some c.first_authorized_at then c else record c { first_authorized_at = some at }

abbrev authorize_client : String → ℕ → Action (Unit {0})
authorize_client id at = modify λ w. record w {
  db = record w.db {
    clients = update_where (λ c. str_eq c.client_id id) (first_authorized at) w.clients;
  };
}

module _ (host : Host) (settings : Settings) where
  -- `_revoke_replayed_code_grant`
  unfoldable pub revoke_replayed_code_grant : Code → Action (Unit {0})
  revoke_replayed_code_grant code = do
    at ← now host
    set_tokens (revoke_where (λ t. t.session_id == code.session_id) at)
    revoke_upstream host code.session_id

  -- the first tokens of a new family
  unfoldable pub issue_family : TokenForm → Code → Action (String × String × String)
  issue_family form stored = do
    family_id ← uuid4 host
    add_token_pair host settings form.client_id stored.session_id stored.scope stored.resource
        family_id

  -- a code that passed every check is consumed, and its pair of tokens issued
  unfoldable pub issue_for_code : TokenForm → Code → Action Reply
  issue_for_code form stored = do
    at ← now host
    consume_code stored.code_hash at
    authorize_client form.client_id at
    pair ← issue_family form stored
    pure (token_pair_response host settings pair.0 pair.1 stored.scope)

  -- a code that was never used
  unfoldable pub fresh_code : TokenForm → Code → Action Reply
  fresh_code form stored = do
    at ← now host
    if code_refused host form stored at then pure code_invalid else issue_for_code form stored

  -- a code that was used already
  unfoldable pub replayed_code : Code → Action Reply
  replayed_code stored = do
    revoke_replayed_code_grant stored
    pure (invalid_grant "Authorization code reuse detected; session revoked")

  unfoldable pub presented_code : TokenForm → Option Code → Action Reply
  presented_code form none = pure code_invalid
  presented_code form (some stored) =
      if is_some stored.consumed_at then replayed_code stored else fresh_code form stored

  unfoldable pub look_up_code : TokenForm → Action Reply
  look_up_code form = do
    stored ← gets (λ w. find_code (code_hash host form) w.codes)
    presented_code form stored

  unfoldable pub code_grant : TokenForm → Action Reply
  code_grant form =
      if has_code_fields form
      then look_up_code form
      else pure
          (oauth_error "invalid_request" "code, redirect_uri and code_verifier are required" 400)
