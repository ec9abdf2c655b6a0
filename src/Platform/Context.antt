-- ===== src/Platform/Context.antt =====
-- `live_context` and `revoke_upstream` of server/okk_mcp/platform_client.py. A session id is an UUID
-- already parsed.
pub mod Frame
pub mod Revocation
pub mod Live
use okk_analytics_codex_plug.Common.{
  ℕ, String, not, Option, none, some, List, ◌==◌, str_eq, is_some, if◌then◌else◌,
}
use okk_analytics_codex_plug.Errors.{authentication_error}
use okk_analytics_codex_plug.Models.{Session}
use okk_analytics_codex_plug.Effect.{
  Host, Action, Response, User, logout, pure, raise, lift, gets, ◌>>=◌, ◌>>◌, now, send,
}
use okk_analytics_codex_plug.Crypto.{open_sealed}
use okk_analytics_codex_plug.Platform.Account.{UserFields, get_me, me_payload, user_fields}
use okk_analytics_codex_plug.Platform.Rotation.{
  find_session, active_session, set_session, rotate_session,
}

pub record AccountContext : Type 0 where
  pub session_id : ℕ
  pub user_id : String
  pub email : String
  pub role : String
  pub department_ids : List String
  pub access_token : String

module _ (host : Host) where
  -- the user of the answer to `/auth/me`; an expired access token is renewed first
  unfoldable pub verified_user : ℕ → String → Response → Action (String × User)
  verified_user sid access_token r =
      if r.status == 401
      then rotate_session host sid access_token
      else (do user ← lift (me_payload r); pure (access_token, user))

  -- The second transaction: the row must still be active and belong to the same OKK user.
  unfoldable pub record_context : ℕ → String → String → UserFields → Action AccountContext
  record_context sid okk_user_id access_token fields = do
    row ← active_session sid
    at ← now host
    if not (str_eq fields.user_id okk_user_id)
        then (do
          set_session sid (λ s. record s { revoked_at = some at })
          raise (authentication_error "OKK account identity changed"))
        else (do
          set_session sid λ s. record s {
            role_snapshot = fields.role;
            department_ids_snapshot = fields.department_ids;
            last_verified_at = some at;
          }
          pure (record {
            session_id = sid;
            user_id = fields.user_id;
            email = fields.email;
            role = fields.role;
            department_ids = fields.department_ids;
            access_token = access_token;
          }))

  -- `live_context`
  unfoldable pub live_context : ℕ → Action AccountContext
  live_context sid = do
    row ← active_session sid
    access_token ← open_sealed host row.encrypted_access_token
    r ← get_me host access_token
    found ← verified_user sid access_token r
    fields ← lift (user_fields host found.1)
    record_context sid row.okk_user_id found.0 fields

  unfoldable pub revoke_row : Option Session → ℕ → Action (Unit {0})
  revoke_row none sid = pure tt
  revoke_row (some row) sid = if is_some row.revoked_at then pure tt else do
    refresh_token ← open_sealed host row.encrypted_refresh_token
    at ← now host
    set_session sid (λ s. record s { revoked_at = some at })
    -- a failed logout is ignored
    send host (logout refresh_token)
    pure tt

  -- `revoke_upstream`
  unfoldable pub revoke_upstream : ℕ → Action (Unit {0})
  revoke_upstream sid = do row ← gets (λ w. find_session sid w.sessions); revoke_row row sid
