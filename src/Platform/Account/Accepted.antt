-- ===== src/Platform/Account/Accepted.antt =====
-- What a login through `authenticate` of server/okk_mcp/platform_client.py rests on.
use okk_analytics_codex_plug.Common.{
  ℕ, ◌≤◌, ◌≡◌, refl, sym, subst, ap, ◌∙◌, String, Bool, true, false, not, ◌||◌, Bool-cases, inl,
  inr, List, ◌∷◌, ◌==◌, leb, length, strip, str_eq, nonempty, arith,
}
use okk_analytics_codex_plug.Errors.{ok}
use okk_analytics_codex_plug.Models.{Session}
use okk_analytics_codex_plug.Effect.{
  Host, World, Answer, response, Request, Response, User, login, lift, now, uuid4,
}
use okk_analytics_codex_plug.Effect.Outcomes.{bind-ok, ok_injective, not_ok}
use okk_analytics_codex_plug.Effect.Preserves.{Preserves, preserve_rules}
use okk_analytics_codex_plug.Crypto.{seal}
use okk_analytics_codex_plug.Platform.Account.{
  UserFields, user_fields, responded, checked, issued, refresh_cookie, opened_session, authenticate,
}

abbrev pub sent_of : World → List Request
sent_of w = w.sent

-- OKK answered the login with an active user, whose session this is.
pub record SignedIn (answer : Answer) (session : Session) : Type 0 where
  pub r : Response
  pub answered : answer ≡ response r
  pub accepted : r.status ≡ 200
  pub same_user : session.okk_user_id ≡ r.user.id
  pub active : r.user.is_active ≡ true

-- The session's id was drawn, at the draw `d` or later.
abbrev pub DrawnFrom : Host → ℕ → Session → Type 0
DrawnFrom host d session = (n : ℕ) × (d ≤ n) × (session.id ≡ host.uuid n)

module _ (host : Host) where
  now-sent : Preserves sent_of (now host)
  now-sent = record { at = λ w. refl; grows = λ w. omega arith }

  uuid4-sent : Preserves sent_of (uuid4 host)
  uuid4-sent = record { at = λ w. refl; grows = λ w. omega arith }

  seal-sent : (s : String) → Preserves sent_of (seal host s)
  seal-sent s = record { at = λ w. refl; grows = λ w. omega arith }

  opened_session-sent : (answer : Answer) → Preserves sent_of (opened_session host answer)
  unfolding opened_session
  opened_session-sent answer = search (preserve_rules, now-sent, uuid4-sent, seal-sent) depth 24

  -- One request is sent: the login with the person's email address and password.
  pub authenticate-sent :
      (email password : String) (w : World)
      → (authenticate host email password w).1.sent ≡ login (strip email) password ∷ w.sent
  unfolding authenticate
  authenticate-sent email password w =
      (opened_session-sent (host.answer (length w.sent))).at
        (record w { sent = login (strip email) password ∷ w.sent })

  checked-ok :
      (denied down rejected : String) (r s : Response)
      → checked denied down rejected r ≡ ok s
      → (r.status ≡ 200) × (r ≡ s)
  unfolding checked
  checked-ok denied down rejected r s h = elim (Bool-cases (r.status == 401)) [
    | inl e ↦ absurd (not_ok (rw e at h))
    | inr e ↦ elim (Bool-cases (leb 500 r.status)) [
      | inl f ↦ absurd (not_ok (rw (e, f) at h))
      | inr f ↦ elim (Bool-cases (r.status == 200)) [
        | inl g ↦ (ground (arith, g), ok_injective (rw (e, f, g) at h))
        | inr g ↦ absurd (not_ok (rw (e, f, g) at h))
      ]
    ]
  ]

  is_active : (a b c d : Bool) → (not a || not b || not c || not d) ≡ false → d ≡ true
  is_active a b c d h = ground arith

  active-ok :
      (u : User) (fields : UserFields)
      → user_fields host u ≡ ok fields
      → (fields.user_id ≡ u.id) × (u.is_active ≡ true)
  unfolding user_fields
  active-ok u fields h =
      let email = host.lower (strip u.email) in
      let supported = str_eq u.role "admin" || str_eq u.role "viewer" in
      elim (Bool-cases
        (not (nonempty u.id) || not (nonempty email) || not supported || not u.is_active)) [
          | inl e ↦ absurd (not_ok (rw e at h))
          | inr e ↦
              let same = ok_injective (rw e at h) in
              (
                sym (ap (λ f. f.user_id) same),
                is_active (nonempty u.id) (nonempty email) supported u.is_active e,
              )
        ]

  responded-ok :
      (message : String) (answer : Answer) (r : Response)
      → responded message answer ≡ ok r
      → answer ≡ response r
  unfolding responded
  responded-ok message (response q) r h = ap response (ok_injective h)
  responded-ok message _ r h = cc

  opened_session-SignedIn :
      (answer : Answer) (session : Session) (w : World)
      → (opened_session host answer w).0 ≡ ok session
      → SignedIn answer session × DrawnFrom host w.draws session
  unfolding opened_session
  opened_session-SignedIn answer session w h =
      let (r1, same, h1) =
        bind-ok (lift (responded "OKK login is temporarily unavailable" answer)) _ w session h in
      let (r2, check, h2) =
        bind-ok
          (lift (
            checked "Invalid OKK login or password" "OKK login is temporarily unavailable"
              "OKK rejected the login request" r1))
          _ _ session h1 in
      let (access, _, h3) =
        bind-ok (lift (issued "OKK did not issue an access session" r2.access_token)) _ _ session
          h2 in
      let (cookie, _, h4) = bind-ok (lift (refresh_cookie r2)) _ _ session h3 in
      let (fields, valid, h5) = bind-ok (lift (user_fields host r2.user)) _ _ session h4 in
      let (accepted, same_response) =
        checked-ok "Invalid OKK login or password" "OKK login is temporarily unavailable"
          "OKK rejected the login request" r1 r2 check in
      let (own, active) = active-ok r2.user fields valid in
      (
        record {
          r = r2;
          answered = responded-ok _ answer r1 same ∙ ap response same_response;
          accepted = subst (λ q. q.status ≡ 200) same_response accepted;
          same_user = sym (ap (λ s. s.okk_user_id) (ok_injective h5)) ∙ own;
          active = active;
        },
        (_, omega arith, sym (ap (λ s. s.id) (ok_injective h5))),
      )

  pub authenticate-SignedIn :
      (email password : String) (w : World) (session : Session)
      → (authenticate host email password w).0 ≡ ok session
      → SignedIn (host.answer (length w.sent)) session × DrawnFrom host w.draws session
  unfolding authenticate
  authenticate-SignedIn email password w session h =
      opened_session-SignedIn (host.answer (length w.sent)) session _ h
