-- ===== src/Platform/Rotation.antt =====
-- `_rotate_session` and `_remember_renewal` of server/okk_mcp/platform_client.py: an expired OKK
-- access token is renewed under the lock of its session row.
pub mod Frame
pub mod Holds
pub mod Shared
use okk_analytics_codex_plug.Common.{
  ℕ, String, not, Option, none, some, List, [], ◌∷◌, ◌++◌, ◌==◌, str_eq, is_some, find_first, keep,
  length, ltb, if◌then◌else◌,
}
use okk_analytics_codex_plug.Errors.{Exc, Result, ok, raised, authentication_error}
use okk_analytics_codex_plug.Models.{Session, update_where}
use okk_analytics_codex_plug.Effect.{
  Host, Action, User, pure, raise, lift, modify, ◌>>=◌, ◌>>◌, try, now,
}
use okk_analytics_codex_plug.Crypto.{seal, open_sealed}
use okk_analytics_codex_plug.Platform.Account.{refresh_session, get_me, me_payload}

abbrev pub find_session : ℕ → List Session → Option Session
find_session sid = find_first (λ s. s.id == sid)

-- `row = await db.get(OkkAccountSession, id)` behind the guard for a missing or revoked row
unfoldable pub active : Option Session → Result Session
active none = raised (authentication_error "OKK account session is no longer active")
active (some row) =
    if is_some row.revoked_at
    then raised (authentication_error "OKK account session is no longer active")
    else ok row

unfoldable pub active_session : ℕ → Action Session
unfolding active
active_session sid w = (active (find_session sid w.sessions), w)

abbrev pub set_session : ℕ → (Session → Session) → Action (Unit {0})
set_session sid f =
    modify
      λ w. record w { db = record w.db { sessions = update_where (λ s. s.id == sid) f w.sessions } }

abbrev pub renewals_kept : ℕ
renewals_kept = 1000

unfoldable pub drop_oldest : List (ℕ × String × String) → List (ℕ × String × String)
drop_oldest [] = []
drop_oldest (e ∷ rest) = rest

unfoldable pub bounded : List (ℕ × String × String) → List (ℕ × String × String)
unfolding drop_oldest
bounded cache = if ltb renewals_kept (length cache) then drop_oldest cache else cache

-- `_remember_renewal`
unfoldable pub remember_renewal :
    ℕ → String → String → List (ℕ × String × String) → List (ℕ × String × String)
unfolding bounded
remember_renewal sid expired_access renewed_access cache =
    bounded (keep (λ e. not (e.0 == sid)) cache ++ (sid, expired_access, renewed_access) ∷ [])

abbrev remember : ℕ → String → String → Action (Unit {0})
remember sid expired_access renewed_access =
    modify λ w. record w { renewed = remember_renewal sid expired_access renewed_access w.renewed }

module _ (host : Host) where
  -- a session that OKK refuses to refresh is revoked before the error goes on
  unfoldable pub revoke_refused : ℕ → Exc → Action (String × String × User)
  revoke_refused sid (authentication_error message) = do
    at ← now host
    set_session sid (λ s. record s { revoked_at = some at })
    raise (authentication_error message)
  revoke_refused sid e = raise e

  -- the branch of `_rotate_session` that renews the token under the row lock
  unfoldable pub renew_session : ℕ → String → Session → Action (String × User)
  renew_session sid expired_access row = do
    refresh_token ← open_sealed host row.encrypted_refresh_token
    pair ← try (refresh_session host refresh_token) (revoke_refused sid)
    sealed_access ← seal host pair.0
    sealed_refresh ← seal host pair.1
    set_session sid λ s. record s {
      encrypted_access_token = sealed_access;
      encrypted_refresh_token = sealed_refresh;
    }
    remember sid expired_access pair.0
    pure (pair.0, pair.2)

  -- the branch of a request that waited for the lock: the token is renewed already
  unfoldable pub adopt_renewed : ℕ → String → String → Action (String × User)
  adopt_renewed sid expired_access current_access = do
    r ← get_me host current_access
    user ← lift (me_payload r)
    remember sid expired_access current_access
    pure (current_access, user)

  -- `_rotate_session`
  unfoldable pub rotate_session : ℕ → String → Action (String × User)
  rotate_session sid expired_access = do
    row ← active_session sid
    current_access ← open_sealed host row.encrypted_access_token
    if str_eq current_access expired_access
        then renew_session sid expired_access row
        else adopt_renewed sid expired_access current_access
