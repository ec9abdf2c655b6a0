-- ===== src/Oauth/RefreshGrant.antt =====
-- The refresh-token branch of `token_endpoint` in server/okk_mcp/oauth.py, with `_retried_rotation`.
pub mod Invariance
pub mod Reuse
pub mod Frame
pub mod Rotation
pub mod Retry
use okk_analytics_codex_plug.Common.{
  ℕ, ◌+◌, String, not, ◌||◌, Option, none, some, ◌==◌, ltb, leb, ◌&&◌, str_eq, is_some, split,
  subset, rstrip_slash, text_or, if◌then◌else◌,
}
use okk_analytics_codex_plug.Errors.{Exc, Result, ok, raised, authentication_error, unavailable}
use okk_analytics_codex_plug.Models.{Token, update_where, seconds, is_refresh}
use okk_analytics_codex_plug.Effect.{Host, Action, pure, raise, gets, ◌>>=◌, ◌>>◌, try, now}
use okk_analytics_codex_plug.Crypto.{seal, open_sealed}
use okk_analytics_codex_plug.Platform.Context.{live_context, revoke_upstream}
use okk_analytics_codex_plug.Security.Scopes.{validate_scopes}
use okk_analytics_codex_plug.Oauth.Types.{Settings, Reply, oauth_error, TokenForm, given, value}
use okk_analytics_codex_plug.Oauth.Store.{
  find_refresh, set_tokens, revoke_where, invalid_grant, refresh_invalid, add_token_pair,
  token_pair_response,
}

abbrev or_empty : Option ℕ → ℕ
or_empty none = 0
or_empty (some n) = n

abbrev pub refresh_hash : Host → TokenForm → String
refresh_hash host form = host.sha256_hex (value form.refresh_token)

-- what `rotate` writes to the row of the used token
abbrev link_successor : String → ℕ → ℕ → String → String → Action (Unit {0})
link_successor hash consumed revoked next_hash sealed = set_tokens (
    update_where (λ t. str_eq t.token_hash hash && is_refresh t.token_type)
      λ t. record t {
        consumed_at = some consumed;
        revoked_at = some revoked;
        replaced_by_hash = some next_hash;
        successor_sealed = some sealed;
      })

module _ (host : Host) (settings : Settings) where
  -- the successor of a rotated token that a retry may get again
  unfoldable pub retry_pair : Token → Option Token → Action (Option (String × String × String))
  retry_pair stored none = pure none
  retry_pair stored (some successor) =
      if is_some successor.consumed_at || is_some successor.revoked_at then pure none else do
        text ← open_sealed host (value stored.successor_sealed)
        let pair = host.loads_pair text
        pure (some (pair.0, pair.1, successor.scope))

  -- `_retried_rotation`
  unfoldable pub retried_rotation : Token → Action (Option (String × String × String))
  retried_rotation stored =
      if not (given stored.successor_sealed)
        || not (given stored.replaced_by_hash)
        || not (is_some stored.consumed_at)
      then pure none
      else (do
        at ← now host
        if ltb (or_empty stored.consumed_at + seconds settings.refresh_retry_seconds) at
            then pure none
            else (do
              successor ← gets (λ w. find_refresh (value stored.replaced_by_hash) w.tokens)
              retry_pair stored successor))

  -- a used refresh token outside a retry: the whole family is revoked
  unfoldable pub revoke_reused_family : Token → Action Reply
  revoke_reused_family stored = do
    at ← now host
    set_tokens (revoke_where (λ t. t.family_id == stored.family_id) at)
    revoke_upstream host stored.session_id
    pure (invalid_grant "Refresh token reuse detected; session revoked")

  unfoldable pub repeated : Token → Option (String × String × String) → Action Reply
  repeated stored none = revoke_reused_family stored
  repeated stored (some (raw_access, raw_refresh, scope)) =
      pure (token_pair_response host settings raw_access raw_refresh scope)

  unfoldable pub used_refresh : Token → Action Reply
  used_refresh stored = do retried ← retried_rotation stored; repeated stored retried

  -- the stored token is consumed, revoked and linked to its successor
  unfoldable pub rotate : TokenForm → Token → String → Action Reply
  rotate form stored scope = do
    consumed ← now host
    revoked ← now host
    pair ←
        add_token_pair host settings form.client_id stored.session_id scope stored.resource
          stored.family_id
    sealed ← seal host (host.dumps_pair pair.0 pair.1)
    link_successor stored.token_hash consumed revoked pair.2 sealed
    pure (token_pair_response host settings pair.0 pair.1 scope)

  -- `except OKKAuthenticationError` and `except OKKUnavailable` round `live_context`
  unfoldable pub context_failed : Exc → Action (Option Reply)
  context_failed (authentication_error message) =
      pure (some (invalid_grant "OKK account session is unavailable"))
  context_failed (unavailable message) =
      pure (some (oauth_error "temporarily_unavailable" "OKK is temporarily unavailable" 503))
  context_failed e = raise e

  -- the account must still be live at OKK: the reply where it is not
  unfoldable pub checked_account : Token → Action (Option Reply)
  checked_account stored = try (live_context host stored.session_id >> pure none) context_failed

  unfoldable pub rotate_unless : TokenForm → Token → String → Option Reply → Action Reply
  rotate_unless form stored scope (some reply) = pure reply
  rotate_unless form stored scope none = rotate form stored scope

  unfoldable pub refresh_with_scope : TokenForm → Token → Result String → Action Reply
  refresh_with_scope form stored (raised e) =
      pure (oauth_error "invalid_scope" "Unsupported scope" 400)
  refresh_with_scope form stored (ok scope) =
      if not (subset (split scope) (split stored.scope))
      then pure (oauth_error "invalid_scope" "Refresh cannot expand scope" 400)
      else (do failed ← checked_account stored; rotate_unless form stored scope failed)

  unfoldable pub unused_refresh : TokenForm → Token → Action Reply
  unused_refresh form stored =
      if is_some stored.revoked_at
      then pure refresh_invalid
      else if not
          (str_eq (rstrip_slash (text_or (value form.resource) stored.resource)) stored.resource)
      then pure (oauth_error "invalid_target" "Resource cannot change during refresh" 400)
      else refresh_with_scope form stored
          (validate_scopes (some (text_or (value form.scope) stored.scope)))

  unfoldable pub presented_refresh : TokenForm → Option Token → Action Reply
  presented_refresh form none = pure refresh_invalid
  presented_refresh form (some stored) =
      if not (str_eq stored.client_id form.client_id) then pure refresh_invalid else (do
        at ← now host
        if leb stored.expires_at at
            then pure refresh_invalid
            else if is_some stored.consumed_at
            then used_refresh stored
            else unused_refresh form stored)

  unfoldable pub look_up_refresh : TokenForm → Action Reply
  look_up_refresh form = do
    stored ← gets (λ w. find_refresh (refresh_hash host form) w.tokens)
    presented_refresh form stored

  unfoldable pub refresh_grant : TokenForm → Action Reply
  refresh_grant form =
      if given form.refresh_token
      then look_up_refresh form
      else pure (oauth_error "invalid_request" "refresh_token is required" 400)
