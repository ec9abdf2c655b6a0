-- ===== src/Platform/Rotation/Shared.antt =====
-- Requests that notice an expired OKK access token together share one renewal
-- (`_rotate_session` of server/okk_mcp/platform_client.py).
use okk_analytics_codex_plug.Common.{
  ℕ, subst, String, ◌≡◌, ◌≢◌, refl, sym, Bool-cases, inl, inr, some, ◌∷◌, str_eq, eq_iff,
  if◌then◌else◌,
}
use okk_analytics_codex_plug.Errors.{ok}
use okk_analytics_codex_plug.Effect.{Host, World, User, me}
use okk_analytics_codex_plug.Effect.Outcomes.{bind-ok}
use okk_analytics_codex_plug.Crypto.{open_sealed}
use okk_analytics_codex_plug.Platform.Rotation.{
  find_session, active, active_session, renew_session, adopt_renewed, rotate_session,
}
use okk_analytics_codex_plug.Platform.Rotation.Holds.{
  Holds, active-ok, opened-ok, renew-Holds, adopt-Holds, adopt-sent,
}

module _ (host : Host) where
  -- the branch that a request takes for an active session
  to_branch :
      (sid : ℕ) (expired current : String) (w : World) (holds : Holds host sid current w.sessions)
      → rotate_session host sid expired w
        ≡ (if str_eq current expired
              then renew_session host sid expired holds.row
              else adopt_renewed host sid expired current)
            w
  unfolding rotate_session active_session active
  to_branch sid expired current w holds = rw (holds.found, holds.unrevoked, holds.opens) refl

  branch-Holds :
      (sid : ℕ) (expired current : String) (w : World) (out : String × User)
      → ((n : ℕ) (s : String) → host.decrypt (host.encrypt n s) ≡ some s)
      → Holds host sid current w.sessions
      → (rotate_session host sid expired w).0 ≡ ok out
      → Holds host sid out.0 (rotate_session host sid expired w).1.sessions
  branch-Holds sid expired current w out cipher holds h =
      let branch = to_branch sid expired current w holds in
      elim (Bool-cases (str_eq current expired)) [
        | inl e ↦
            rw (branch, e)
              (renew-Holds host sid expired holds.row w out cipher holds.found holds.unrevoked
                (rw (branch, e) at h))
        | inr e ↦
            rw (branch, e) (adopt-Holds host sid expired current w out holds (rw (branch, e) at h))
      ]

  rotate-Holds :
      (sid : ℕ) (expired : String) (w : World) (out : String × User)
      → ((n : ℕ) (s : String) → host.decrypt (host.encrypt n s) ≡ some s)
      → (rotate_session host sid expired w).0 ≡ ok out
      → Holds host sid out.0 (rotate_session host sid expired w).1.sessions
  unfolding rotate_session active_session
  rotate-Holds sid expired w out cipher h =
      let (row, found, h1) = bind-ok (active_session sid) _ w out h in
      let (current, read, h2) = bind-ok (open_sealed host row.encrypted_access_token) _ _ out h1 in
      let (stored, unrevoked) = active-ok (find_session sid w.sessions) row found in
      branch-Holds sid expired current w out cipher
        (record {
          row = row;
          found = stored;
          unrevoked = unrevoked;
          opens = opened-ok host row.encrypted_access_token current w read;
        })
        h

  -- a request that meets another access token than the expired one
  adopts :
      (sid : ℕ) (expired current : String) (w : World)
      → Holds host sid current w.sessions
      → current ≢ expired
      → (rotate_session host sid expired w).1.sent ≡ me current ∷ w.sent
  adopts sid expired current w holds differs = elim (Bool-cases (str_eq current expired)) [
    | inl e ↦ absurd (differs ((eq_iff current expired).0 e))
    | inr e ↦ rw (to_branch sid expired current w holds, e) (adopt-sent host sid expired current w)
  ]

  -- After one request renewed an expired OKK access token, another request with the same expired token
  -- that meets the session as the first one left it posts no refresh: it sends one check of the
  -- renewed token. So the refresh token of OKK, which may be used once, is posted once. It needs a
  -- renewed token other than the expired one, and sealing that opens again.
  pub rotation_is_shared :
      (sid : ℕ) (expired : String) (w later : World) (renewed : String × User)
      → ((n : ℕ) (s : String) → host.decrypt (host.encrypt n s) ≡ some s)
      → (rotate_session host sid expired w).0 ≡ ok renewed
      → renewed.0 ≢ expired
      → later.sessions ≡ (rotate_session host sid expired w).1.sessions
      → (rotate_session host sid expired later).1.sent ≡ me renewed.0 ∷ later.sent
  rotation_is_shared sid expired w later renewed cipher h differs same =
      adopts sid expired renewed.0 later
        (subst (Holds host sid renewed.0) (sym same) (rotate-Holds sid expired w renewed cipher h))
        differs
