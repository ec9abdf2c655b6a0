-- ===== src/Oauth/Token.antt =====
-- `POST /token` and `POST /revoke` of server/okk_mcp/oauth.py, and the check of an access token.
pub mod Invariance
pub mod Once
pub mod Reuse
pub mod Accepted
use okk_analytics_codex_plug.Common.{
  ◌/◌, ℕ, String, not, ◌&&◌, ◌||◌, Option, none, some, List, ◌==◌, leb, str_eq, is_some, find_first,
  split, rstrip_slash, if◌then◌else◌,
}
use okk_analytics_codex_plug.Errors.{Result, ok, raised, authentication_error, unavailable}
use okk_analytics_codex_plug.Models.{Client, Token, is_refresh, update_where}
use okk_analytics_codex_plug.Effect.{Host, Action, pure, settle, raise, gets, ◌>>=◌, ◌>>◌, now}
use okk_analytics_codex_plug.Platform.Context.{live_context, revoke_upstream}
use okk_analytics_codex_plug.Oauth.Types.{Settings, Reply, oauth_error, TokenForm}
use okk_analytics_codex_plug.Oauth.Store.{find_client, set_tokens, revoke_where, in_transaction}
use okk_analytics_codex_plug.Oauth.CodeGrant.{code_grant}
use okk_analytics_codex_plug.Oauth.RefreshGrant.{refresh_grant}
use okk_analytics_codex_plug.Platform.Context.{AccountContext}
use okk_analytics_codex_plug.Oauth.Types.{done}

module _ (host : Host) (settings : Settings) where
  unfoldable pub grant : TokenForm → Option Client → Action Reply
  grant form none = pure (oauth_error "invalid_client" "Unknown public client" 401)
  grant form (some client) =
      if str_eq form.grant_type "authorization_code"
      then code_grant host settings form
      else if str_eq form.grant_type "refresh_token"
      then refresh_grant host settings form
      else pure (oauth_error "unsupported_grant_type" "Unsupported grant type" 400)

  abbrev granted : TokenForm → Action Reply
  granted form = do client ← gets (λ w. find_client form.client_id w.clients); grant form client

  -- `token_endpoint`
  unfoldable pub token_endpoint : TokenForm → Action Reply
  token_endpoint form = in_transaction (granted form)

  unfoldable pub revoke_stored : Option Token → Action Reply
  revoke_stored none = pure done
  revoke_stored (some stored) = do
    at ← now host
    if is_refresh stored.token_type
        then (do
          set_tokens (revoke_where (λ t. t.family_id == stored.family_id) at)
          revoke_upstream host stored.session_id
          pure done)
        else (do
          set_tokens (
              update_where (λ t. str_eq t.token_hash stored.token_hash)
                λ t. record t { revoked_at = some at })
          pure done)

  -- `revoke_token`
  unfoldable pub revoke_token : String → String → Action Reply
  revoke_token token client_id = in_transaction (do
    stored ← gets (λ w.
        find_first
          (λ t. str_eq t.token_hash (host.sha256_hex token) && str_eq t.client_id client_id)
          w.tokens)
    revoke_stored stored)

-- `AccessToken`; without a context OKK was unavailable
pub record AccessToken : Type 0 where
  pub client_id : String
  pub scopes : List String
  pub expires_at : ℕ
  pub resource : String
  pub subject : ℕ
  pub context : Option AccountContext

module _ (host : Host) where
  -- the outcome of `live_context` in `verify_token`: `None` for a refused session
  unfoldable pub checked_context : Token → Result AccountContext → Action (Option AccessToken)
  checked_context stored (ok context) = pure (
      some (record {
        client_id = stored.client_id;
        scopes = split stored.scope;
        expires_at = stored.expires_at / 1000000;
        resource = stored.resource;
        subject = stored.session_id;
        context = some context;
      }))
  checked_context stored (raised (authentication_error message)) = pure none
  checked_context stored (raised (unavailable message)) = pure (
      some (record {
        client_id = stored.client_id;
        scopes = split stored.scope;
        expires_at = stored.expires_at / 1000000;
        resource = stored.resource;
        subject = stored.session_id;
        context = none;
      }))
  checked_context stored (raised e) = raise e

  unfoldable pub verify_stored : String → Option Token → Action (Option AccessToken)
  verify_stored resource_url none = pure none
  verify_stored resource_url (some stored) = if is_some stored.revoked_at then pure none else (do
    at ← now host
    if leb stored.expires_at at || not (str_eq (rstrip_slash stored.resource) resource_url)
        then pure none
        else settle (live_context host stored.session_id) (checked_context stored))

  -- `OKKTokenVerifier.verify_token`, for the verifier of one resource
  unfoldable pub verify_token : String → String → Action (Option AccessToken)
  verify_token resource_url token = do
    stored ← gets (λ w.
        find_first
          (λ t. str_eq t.token_hash (host.sha256_hex token) && not (is_refresh t.token_type))
          w.tokens)
    verify_stored (rstrip_slash resource_url) stored
