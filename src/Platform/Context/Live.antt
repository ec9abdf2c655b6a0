-- ===== src/Platform/Context/Live.antt =====
-- What a context that `live_context` of server/okk_mcp/platform_client.py returned says of the session
-- and of its OKK account.
use okk_analytics_codex_plug.Common.{
  ℕ, String, ◌≡◌, refl, sym, Bool, true, false, Bool-cases, inl, inr, ◌⊎◌, some, is_some, not, ◌||◌,
  nonempty, str_eq, eq_iff, strip, arith,
}
use okk_analytics_codex_plug.Errors.{ok}
use okk_analytics_codex_plug.Models.{Session}
use okk_analytics_codex_plug.Effect.{Host, World, User, lift}
use okk_analytics_codex_plug.Effect.Outcomes.{bind-ok, not_ok, ok_injective}
use okk_analytics_codex_plug.Platform.Rotation.Holds.{active-ok}
use okk_analytics_codex_plug.Crypto.{open_sealed}
use okk_analytics_codex_plug.Platform.Account.{UserFields, user_fields, get_me}
use okk_analytics_codex_plug.Platform.Rotation.{find_session, active_session}
use okk_analytics_codex_plug.Platform.Context.{
  AccountContext, verified_user, record_context, live_context,
}

-- The account has an address and a supported role.
pub record IsAccount (email role : String) : Type 0 where
  pub address : nonempty email ≡ true
  pub supported : (role ≡ "admin") ⊎ (role ≡ "viewer")

-- The session is stored and active, and the account is the one that signed in.
pub record IsLive (sid : ℕ) (w : World) (context : AccountContext) : Type 0 where
  pub row : Session
  pub found : find_session sid w.sessions ≡ some row
  pub unrevoked : is_some row.revoked_at ≡ false
  pub same_user : context.user_id ≡ row.okk_user_id
  pub same_session : context.session_id ≡ sid
  pub account : IsAccount context.email context.role

or_cases : (a b : Bool) → (a || b) ≡ true → (a ≡ true) ⊎ (b ≡ true)
or_cases true b h = inl refl
or_cases false b h = inr h

either :
    (role : String)
    → (str_eq role "admin" ≡ true) ⊎ (str_eq role "viewer" ≡ true)
    → (role ≡ "admin") ⊎ (role ≡ "viewer")
either role (inl e) = inl ((eq_iff role "admin").0 e)
either role (inr e) = inr ((eq_iff role "viewer").0 e)

module _ (host : Host) where
  passed : (a b c d : Bool) → (not a || not b || not c || not d) ≡ false → (b ≡ true) × (c ≡ true)
  passed a b c d h = ground arith

  user_fields-ok :
      (u : User) (fields : UserFields)
      → user_fields host u ≡ ok fields
      → IsAccount fields.email fields.role
  unfolding user_fields
  user_fields-ok u fields h =
      let email = host.lower (strip u.email) in
      let supported = str_eq u.role "admin" || str_eq u.role "viewer" in
      elim (Bool-cases
        (not (nonempty u.id) || not (nonempty email) || not supported || not u.is_active)) [
          | inl e ↦ absurd (not_ok (rw e at h))
          | inr e ↦
              let (address, role) =
                passed (nonempty u.id) (nonempty email) supported u.is_active e in
              let same = sym (ok_injective (rw e at h)) in
              rw same (record {
                address = address;
                supported =
                    either u.role (or_cases (str_eq u.role "admin") (str_eq u.role "viewer") role);
              })
        ]

  abbrev context_of : ℕ → String → UserFields → AccountContext
  context_of sid access fields = record {
    session_id = sid;
    user_id = fields.user_id;
    email = fields.email;
    role = fields.role;
    department_ids = fields.department_ids;
    access_token = access;
  }

  record_context-ok :
      (sid : ℕ) (okk_user_id access : String) (fields : UserFields) (w : World)
      (context : AccountContext)
      → (record_context host sid okk_user_id access fields w).0 ≡ ok context
      → (fields.user_id ≡ okk_user_id) × (context_of sid access fields ≡ context)
  unfolding record_context
  record_context-ok sid okk_user_id access fields w context h =
      let (row, _, h') = bind-ok (active_session sid) _ w context h in
      elim (Bool-cases (str_eq fields.user_id okk_user_id)) [
        | inl e ↦ ((eq_iff fields.user_id okk_user_id).0 e, ok_injective (rw e at h'))
        | inr e ↦ absurd (not_ok (rw e at h'))
      ]

  -- A context that `live_context` returns is of a stored session that was not revoked; the account's
  -- id at OKK is the one that signed in, it has an email address, and its role is admin or viewer.
  pub live_context-IsLive :
      (sid : ℕ) (w : World) (context : AccountContext)
      → (live_context host sid w).0 ≡ ok context
      → IsLive sid w context
  unfolding live_context active_session
  live_context-IsLive sid w context h =
      let (row, found, h1) = bind-ok (active_session sid) _ w context h in
      let (access, _, h2) = bind-ok (open_sealed host row.encrypted_access_token) _ _ context h1 in
      let (r, _, h3) = bind-ok (get_me host access) _ _ context h2 in
      let (user, _, h4) = bind-ok (verified_user host sid access r) _ _ context h3 in
      let (fields, valid, h5) = bind-ok (lift (user_fields host user.1)) _ _ context h4 in
      let (same, is) = record_context-ok sid row.okk_user_id user.0 fields _ context h5 in
      let (stored, unrevoked) = active-ok (find_session sid w.sessions) row found in
      rw⁻¹ is (record {
        row = row;
        found = stored;
        unrevoked = unrevoked;
        same_user = same;
        same_session = refl;
        account = user_fields-ok user.1 fields valid;
      })
