-- ===== src/Platform/Rotation/Holds.antt =====
-- What a renewal of the OKK access token leaves in the row of its session (`_rotate_session` of
-- server/okk_mcp/platform_client.py).
use okk_analytics_codex_plug.Common.{
  ℕ, suc, String, ◌≡◌, ◌≢◌, refl, sym, ◌∙◌, ap, false, Bool-cases, inl, inr, Option, none, some,
  Option-cases, List, ◌∷◌, is_some, arith, ◌==◌,
}
use okk_analytics_codex_plug.Errors.{Exc, Result, ok, raised, authentication_error}
use okk_analytics_codex_plug.Models.{Session, update_where}
use okk_analytics_codex_plug.Models.Rows.{find_first-update_where}
use okk_analytics_codex_plug.Effect.{
  Host, World, User, Request, me, send, lift, try, handled, pure, ◌>>=◌, ◌>>◌,
}
use okk_analytics_codex_plug.Effect.Outcomes.{bind-ok, not_ok, ok_injective}
use okk_analytics_codex_plug.Effect.Preserves.{Preserves, Preserves-continue, preserve_rules}
use okk_analytics_codex_plug.Crypto.{open_sealed}
use okk_analytics_codex_plug.Platform.Account.{refresh_session, get_me, me_payload}
use okk_analytics_codex_plug.Platform.Rotation.{
  find_session, active, revoke_refused, renew_session, adopt_renewed, remember,
}

abbrev sessions_of : World → List Session
sessions_of w = w.sessions

-- The stored session is active, and its access token is `access`.
pub record Holds (host : Host) (sid : ℕ) (access : String) (sessions : List Session) : Type 0 where
  pub row : Session
  pub found : find_session sid sessions ≡ some row
  pub unrevoked : is_some row.revoked_at ≡ false
  pub opens : host.decrypt row.encrypted_access_token ≡ some access

pub active-ok :
    (o : Option Session) (row : Session)
    → active o ≡ ok row
    → (o ≡ some row) × (is_some row.revoked_at ≡ false)
unfolding active
active-ok none row h = cc
active-ok (some s) row h = elim (Bool-cases (is_some s.revoked_at)) [
  | inl e ↦ (cc (rw e at h), cc (rw e at h))
  | inr e ↦ (cc (rw e at h), cc (e, rw e at h))
]

pub opened-ok :
    (host : Host) (sealed text : String) (w : World)
    → (open_sealed host sealed w).0 ≡ ok text
    → host.decrypt sealed ≡ some text
opened-ok host sealed text w h = elim (Option-cases (host.decrypt sealed)) [
  | inl e ↦ absurd (not_ok (rw e at h))
  | inr (found, e) ↦ e ∙ ap some (ok_injective (rw e at h))
]

abbrev sent_of : World → List Request
sent_of w = w.sent

module _ (host : Host) where
  unreadable_raises :
      (sid : ℕ) (expired : String) (row : Session) (w : World) (out : String × User)
      → host.decrypt row.encrypted_refresh_token ≡ none
      → (renew_session host sid expired row w).0 ≢ ok out
  unfolding renew_session
  unreadable_raises sid expired row w out unreadable h = cc (rw unreadable at h)

  send-sessions : (r : Request) → Preserves sessions_of (send host r)
  send-sessions r = record { at = λ w. refl; grows = λ w. omega arith }

  refresh_session-sessions : (t : String) → Preserves sessions_of (refresh_session host t)
  unfolding refresh_session
  refresh_session-sessions t = search (preserve_rules, send-sessions) depth 12

  get_me-sessions : (t : String) → Preserves sessions_of (get_me host t)
  unfolding get_me
  get_me-sessions t = search (preserve_rules, send-sessions) depth 6

  refused-raises :
      (sid : ℕ) (e : Exc) (w : World) (b : String × String × User)
      → (revoke_refused host sid e w).0 ≢ ok b
  unfolding revoke_refused
  refused-raises sid (authentication_error m) w b h = cc
  refused-raises sid _ w b h = cc

  handled-ok :
      (sid : ℕ) (r : Result (String × String × User)) (w : World) (b : String × String × User)
      → (handled r (revoke_refused host sid) w).0 ≡ ok b
      → handled r (revoke_refused host sid) w ≡ (ok b, w)
  handled-ok sid (ok a) w b h = ap (λ r. (r, w)) h
  handled-ok sid (raised e) w b h = absurd (refused-raises sid e w b h)

  -- the row of the session with the renewed tokens
  abbrev resealed : World → String × String × User → Session → Session
  resealed w pair s = record s {
    encrypted_access_token = host.encrypt w.draws pair.0;
    encrypted_refresh_token = host.encrypt (suc w.draws) pair.1;
  }

  module _ (sid : ℕ) (expired : String) (row : Session) (w : World) (refresh_token : String)
      (readable : host.decrypt row.encrypted_refresh_token ≡ some refresh_token) where
    abbrev after : World
    after = (refresh_session host refresh_token w).1

    -- a renewal that returns leaves the renewed tokens in the row
    renewed :
        (out : String × User)
        → (renew_session host sid expired row w).0 ≡ ok out
        → (pair : String × String × User) × (out ≡ (pair.0, pair.2))
          × ((renew_session host sid expired row w).1.sessions
              ≡ update_where (λ s. s.id == sid) (resealed after pair) w.sessions)
    unfolding renew_session
    renewed out h =
        let h1 = rw readable at h in
        let (pair, answered, _) =
          bind-ok (try (refresh_session host refresh_token) (revoke_refused host sid)) _ w out h1 in
        let whole = handled-ok sid (refresh_session host refresh_token w).0 after pair answered in
        (
          pair,
          sym (ok_injective (rw whole at h1)),
          rw (readable, whole)
              (ap (update_where (λ s. s.id == sid) (resealed after pair))
                ((refresh_session-sessions refresh_token).at w)),
        )

  pub renew-Holds :
      (sid : ℕ) (expired : String) (row : Session) (w : World) (out : String × User)
      → ((n : ℕ) (s : String) → host.decrypt (host.encrypt n s) ≡ some s)
      → find_session sid w.sessions ≡ some row
      → is_some row.revoked_at ≡ false
      → (renew_session host sid expired row w).0 ≡ ok out
      → Holds host sid out.0 (renew_session host sid expired row w).1.sessions
  renew-Holds sid expired row w out cipher found unrevoked h =
      elim (Option-cases (host.decrypt row.encrypted_refresh_token)) [
        | inl unreadable ↦ absurd (unreadable_raises sid expired row w out unreadable h)
        | inr (refresh_token, readable) ↦
            let (pair, is, kept) = renewed sid expired row w refresh_token readable out h in
            let f = resealed (refresh_session host refresh_token w).1 pair in
            rw (is, kept)
              (record {
                row = f row;
                found =
                    find_first-update_where (λ s. s.id == sid) f w.sessions row (λ s e. e) found;
                unrevoked = unrevoked;
                opens = cipher _ pair.0;
              })
      ]

  remember-sessions : (sid : ℕ) (a b : String) → Preserves sessions_of (remember sid a b)
  remember-sessions sid a b = record { at = λ w. refl; grows = λ w. omega arith }

  remember-sent : (sid : ℕ) (a b : String) → Preserves sent_of (remember sid a b)
  remember-sent sid a b = record { at = λ w. refl; grows = λ w. omega arith }

  adopt-sessions :
      (sid : ℕ) (expired current : String)
      → Preserves sessions_of (adopt_renewed host sid expired current)
  unfolding adopt_renewed
  adopt-sessions sid expired current =
      search (preserve_rules, get_me-sessions, remember-sessions) depth 12

  -- a request that adopts the renewed token sends one check of it
  pub adopt-sent :
      (sid : ℕ) (expired current : String) (w : World)
      → (adopt_renewed host sid expired current w).1.sent ≡ me current ∷ w.sent
  unfolding adopt_renewed get_me
  adopt-sent sid expired current w =
      (Preserves-continue {B = String × User} {f = sent_of} (get_me host current w).0
          (λ r.
            lift (me_payload r) >>= λ user. remember sid expired current >> pure (current, user))
          (λ r. search (preserve_rules, remember-sent) depth 10)).at
        (get_me host current w).1

  pub adopt-Holds :
      (sid : ℕ) (expired current : String) (w : World) (out : String × User)
      → Holds host sid current w.sessions
      → (adopt_renewed host sid expired current w).0 ≡ ok out
      → Holds host sid out.0 (adopt_renewed host sid expired current w).1.sessions
  unfolding adopt_renewed
  adopt-Holds sid expired current w out holds h =
      let (r, _, h1) = bind-ok (get_me host current) _ w out h in
      let (user, _, h2) = bind-ok (lift (me_payload r)) _ _ out h1 in
      rw (← ok_injective h2, (adopt-sessions sid expired current).at w) holds
