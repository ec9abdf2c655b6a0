-- ===== src/Oauth/CodeGrant/Once.antt =====
-- A code buys tokens once: an exchange that answers with tokens leaves the code used, and a used code
-- buys none.
use okk_analytics_codex_plug.Common.{
  ℕ, String, ◌≡◌, refl, true, false, Bool-cases, Option-cases, inl, inr, Option, none, some, List,
  All, is_some, str_eq, eq_iff, sym, ◌∙◌, ap,
}
use okk_analytics_codex_plug.Errors.{Result, ok, raised}
use okk_analytics_codex_plug.Models.{Code, update_where}
use okk_analytics_codex_plug.Models.Rows.{
  Found, find_first-Found, find_first-selected, update_where-makes,
}
use okk_analytics_codex_plug.Effect.{Host, World, continue, pure}
use okk_analytics_codex_plug.Oauth.Types.{Settings, TokenForm, token_response, Tokenless}
use okk_analytics_codex_plug.Oauth.Store.{find_code, code_invalid, invalid_grant}
use okk_analytics_codex_plug.Oauth.Invariant.{SpentAt}
use okk_analytics_codex_plug.Oauth.CodeGrant.{
  has_code_fields, code_hash, code_refused, revoke_replayed_code_grant, replayed_code,
  presented_code, look_up_code, code_grant,
}
use okk_analytics_codex_plug.Oauth.CodeGrant.Exchange.{code_grant_reply, code_grant_codes}

module _ (host : Host) (settings : Settings) where
  after_revocation :
      (r : Result (Unit {0})) (w : World)
      → Tokenless
          (continue r
            (λ _. pure (invalid_grant "Authorization code reuse detected; session revoked"))
            w).0
  unfolding invalid_grant
  after_revocation (ok u) w a b c d h = cc
  after_revocation (raised e) w a b c d h = cc

  replayed_code-Tokenless :
      (stored : Code) (w : World) → Tokenless (replayed_code host settings stored w).0
  unfolding replayed_code
  replayed_code-Tokenless stored w =
      after_revocation (revoke_replayed_code_grant host settings stored w).0
        (revoke_replayed_code_grant host settings stored w).1

  presented-Tokenless :
      (form : TokenForm) (o : Option Code) (w : World)
      → Found (λ c. is_some c.consumed_at ≡ true) o
      → Tokenless (presented_code host settings form o w).0
  unfolding presented_code code_invalid
  presented-Tokenless form none w h = λ a b c d e. cc
  presented-Tokenless form (some stored) w h = rw h (replayed_code-Tokenless stored w)

  nothing_found :
      (form : TokenForm) (w : World)
      → has_code_fields form ≡ true
      → find_code (code_hash host form) w.codes ≡ none
      → Tokenless (code_grant host settings form w).0
  unfolding code_grant look_up_code
  nothing_found form w fields e = rw (fields, e) (presented-Tokenless form none w tt)

  no_fields :
      (form : TokenForm) (w : World)
      → has_code_fields form ≡ false
      → Tokenless (code_grant host settings form w).0
  unfolding code_grant
  no_fields form w e = rw e (λ a b c d x. cc)

  hash_of_found :
      (form : TokenForm) (w : World) (c : Code)
      → find_code (code_hash host form) w.codes ≡ some c
      → c.code_hash ≡ code_hash host form
  hash_of_found form w c e =
      (eq_iff c.code_hash (code_hash host form)).0
        (find_first-selected (λ c. str_eq c.code_hash (code_hash host form)) w.codes c e)

  stored_code_used :
      (form : TokenForm) (w : World)
      → All (SpentAt (code_hash host form)) w.codes
      → Found (λ c. is_some c.consumed_at ≡ true) (find_code (code_hash host form) w.codes)
  stored_code_used form w h = elim (Option-cases (find_code (code_hash host form) w.codes)) [
    | inl e ↦ rw e tt
    | inr (c, e) ↦ rw e (
        (rw e at (
            find_first-Found (SpentAt (code_hash host form))
              (λ c. str_eq c.code_hash (code_hash host form)) w.codes h))
          (hash_of_found form w c e))
  ]

  -- A used code buys no tokens.
  pub code_grant-Tokenless :
      (form : TokenForm) (w : World)
      → All (SpentAt (code_hash host form)) w.codes
      → Tokenless (code_grant host settings form w).0
  unfolding code_grant look_up_code
  code_grant-Tokenless form w h = elim (Bool-cases (has_code_fields form)) [
    | inl e ↦ rw e (
        presented-Tokenless form (find_code (code_hash host form) w.codes) w
          (stored_code_used form w h))
    | inr e ↦ no_fields form w e
  ]

  -- an exchange that consumes the code leaves every row with its hash used
  consumed_all :
      (hash stored_hash : String) (at : ℕ) (codes : List Code)
      → stored_hash ≡ hash
      → All (SpentAt hash) (
          update_where
            (λ c. str_eq c.code_hash stored_hash)
            (λ c. record c { consumed_at = some at })
            codes)
  consumed_all hash stored_hash at codes same =
      update_where-makes (SpentAt hash) (λ c. str_eq c.code_hash stored_hash)
        (λ c. record c { consumed_at = some at }) codes (λ c e. refl)
        (λ c miss e. cc (miss, (eq_iff c.code_hash stored_hash).1 (e ∙ sym same)))

  module _ (form : TokenForm) (w : World) (stored : Code) (a r s : String) (n : ℕ)
      (fields : has_code_fields form ≡ true)
      (found : find_code (code_hash host form) w.codes ≡ some stored)
      (bought : (code_grant host settings form w).0 ≡ ok (token_response a r s n)) where
    abbrev AllSpent : Type 0
    AllSpent = All (SpentAt (code_hash host form)) (code_grant host settings form w).1.codes

    unused_spends : stored.consumed_at ≡ none → AllSpent
    unfolding code_invalid
    unused_spends unused =
        let reply = code_grant_reply host settings form w stored fields found unused in
        elim (Bool-cases (code_refused host form stored (host.now w.readings))) [
          | inl refused ↦ cc (bought, (rw refused at reply))
          | inr accepted ↦
              rw (code_grant_codes host settings form w stored fields found unused accepted) (
                consumed_all (code_hash host form) stored.code_hash _ w.codes
                  (hash_of_found form w stored found))
        ]

    used_spends : (at : ℕ) → stored.consumed_at ≡ some at → AllSpent
    unfolding code_grant look_up_code presented_code
    used_spends at used =
        absurd
          (replayed_code-Tokenless stored w a r s n (rw (fields, found, ap is_some used) at bought))

    found_spends : AllSpent
    found_spends = elim (Option-cases stored.consumed_at) [
      | inl e ↦ unused_spends e
      | inr (at, e) ↦ used_spends at e
    ]

  -- An exchange that answers with tokens leaves the code used.
  pub code_grant_spends :
      (form : TokenForm) (w : World) (a r s : String) (n : ℕ)
      → (code_grant host settings form w).0 ≡ ok (token_response a r s n)
      → All (SpentAt (code_hash host form)) (code_grant host settings form w).1.codes
  code_grant_spends form w a r s n bought = elim (Bool-cases (has_code_fields form)) [
    | inl fields ↦ elim (Option-cases (find_code (code_hash host form) w.codes)) [
      | inl e ↦ absurd (nothing_found form w fields e a r s n bought)
      | inr (c, e) ↦ found_spends form w c a r s n fields e bought
    ]
    | inr e ↦ absurd (no_fields form w e a r s n bought)
  ]
