-- ===== src/Oauth/Consent/Checked.antt =====
-- What the boxes of the consent page of server/okk_mcp/oauth.py grant and withhold.
use okk_analytics_codex_plug.Common.{
  ◌≡◌, ◌≢◌, refl, sym, ◌∙◌, ap, String, Bool, true, false, not, ◌&&◌, Bool-cases, inl, inr, Option,
  none, some, List, [], ◌∷◌, keep, split, contains, contains-front, contains-behind, subset,
  subset_trans, subset_of_members, str_eq, eq_iff, arith,
}
use okk_analytics_codex_plug.Oauth.Consent.{
  ConsentForm, is_text, is_refused, granted_scope, granted_scope-split,
}

contains-keep :
    (p : String → Bool) (s : String) (xs : List String)
    → contains s (keep p xs) ≡ (contains s xs && p s)
unfolding contains
contains-keep p s [] = refl
contains-keep p s (x ∷ xs) =
    let same_test : str_eq s x ≡ true → p s ≡ p x = λ e. ap p ((eq_iff s x).0 e) in
    ground (arith, contains-keep p s xs, same_test)

keep-keep :
    (p q : String → Bool) (xs : List String)
    → ((x : String) → contains x xs ≡ true → p x ≡ q x)
    → keep p xs ≡ keep q xs
keep-keep p q [] h = refl
keep-keep p q (x ∷ xs) h =
    let later : keep p xs ≡ keep q xs = keep-keep p q xs λ y m. h y (contains-behind y x xs m) in
    rw (h x (contains-front x xs), later) refl

keep_all : (xs : List String) → keep (λ s. true) xs ≡ xs
keep_all [] = refl
keep_all (x ∷ xs) = ap (λ ys. x ∷ ys) (keep_all xs)

-- The scope that a form grants of a requested one.
pub record IsConsent (requested : String) (form : ConsentForm) (granted : String) : Type 0 where
  -- a form of the previous page version has no boxes
  pub legacy : form.consent_version ≢ some "2" → granted ≡ requested
  -- a box that is not checked withholds its scope
  pub transcripts_withheld :
      form.consent_version ≡ some "2"
      → form.grant_transcripts ≢ some "1"
      → contains "okk.transcripts.read" (split granted) ≡ false
  pub phones_withheld :
      form.consent_version ≡ some "2"
      → form.grant_phones ≢ some "1"
      → contains "okk.phones.read" (split granted) ≡ false
  -- a box that is checked does not
  pub transcripts_granted :
      form.grant_transcripts ≡ some "1"
      → contains "okk.transcripts.read" (split granted)
        ≡ contains "okk.transcripts.read" (split requested)
  pub phones_granted :
      form.grant_phones ≡ some "1"
      → contains "okk.phones.read" (split granted) ≡ contains "okk.phones.read" (split requested)
  -- the other scopes have no box
  pub others_granted :
      (s : String)
      → str_eq s "okk.transcripts.read" ≡ false
      → str_eq s "okk.phones.read" ≡ false
      → contains s (split granted) ≡ contains s (split requested)
  -- nothing is added, repeated or moved
  pub ordered : split granted ≡ keep (λ s. contains s (split granted)) (split requested)

checked_text : (s : String) (o : Option String) → o ≡ some s → is_text s o ≡ true
checked_text s none h = cc
checked_text s (some t) h = (eq_iff t s).1 (cc)

other_text : (s : String) (o : Option String) → o ≢ some s → is_text s o ≡ false
other_text s none h = refl
other_text s (some t) h = elim (Bool-cases (str_eq t s)) [
  | inl e ↦ absurd (h (ap some ((eq_iff t s).0 e)))
  | inr e ↦ e
]

module _ (requested : String) (form : ConsentForm) where
  abbrev may : String → Bool
  unfolding is_refused
  may s = not (is_refused form s)

  kept :
      is_text "2" form.consent_version ≡ true
      → split (granted_scope requested form) ≡ keep may (split requested)
  unfolding is_refused may
  kept e = rw e at (granted_scope-split requested form)

  -- what a scope becomes on a page with boxes
  boxed :
      (s : String)
      → is_text "2" form.consent_version ≡ true
      → contains s (split (granted_scope requested form)) ≡ (contains s (split requested) && may s)
  boxed s e = ap (contains s) (kept e) ∙ contains-keep may s (split requested)

  unboxed : is_text "2" form.consent_version ≡ false → granted_scope requested form ≡ requested
  unfolding granted_scope
  unboxed e = rw e refl

  -- a scope that is not refused
  through :
      (s : String)
      → may s ≡ true
      → contains s (split (granted_scope requested form)) ≡ contains s (split requested)
  through s h = elim (Bool-cases (is_text "2" form.consent_version)) [
    | inl e ↦ boxed s e ∙ ground (arith, h)
    | inr e ↦ ap (λ g. contains s (split g)) (unboxed e)
  ]

  stopped :
      (s : String)
      → form.consent_version ≡ some "2"
      → may s ≡ false
      → contains s (split (granted_scope requested form)) ≡ false
  stopped s v h = boxed s (checked_text "2" form.consent_version v) ∙ ground (arith, h)

  in_order :
      split (granted_scope requested form)
      ≡ keep (λ s. contains s (split (granted_scope requested form))) (split requested)
  in_order = elim (Bool-cases (is_text "2" form.consent_version)) [
    | inl e ↦
        kept e
        ∙ keep-keep may (λ s. contains s (split (granted_scope requested form))) (split requested)
            λ s m. sym (boxed s e ∙ ground (arith, m))
    | inr e ↦
        let words : split (granted_scope requested form) ≡ split requested = ap split (unboxed e) in
        words
        ∙ sym (
            keep-keep (λ s. contains s (split (granted_scope requested form))) (λ s. true)
              (split requested) (λ s m. ap (contains s) words ∙ m)
            ∙ keep_all (split requested))
  ]

  -- what is granted was requested
  pub granted_scope-within :
      (scopes : List String)
      → subset (split requested) scopes ≡ true
      → subset (split (granted_scope requested form)) scopes ≡ true
  granted_scope-within scopes h =
      let granted = split (granted_scope requested form) in
      subset_trans granted (split requested) scopes
        (subset_of_members granted (split requested) λ s m.
          let both =
            ap (contains s) in_order
            ∙ contains-keep (λ s. contains s granted) s (split requested) in
          ground (arith, both, m))
        h

  -- On a page with boxes, the scopes of transcripts and of phone numbers are granted only where the
  -- person left their boxes checked. Every other requested scope is granted, nothing is added, and the
  -- order stays; a form of the previous page version grants what was requested.
  pub granted_scope-IsConsent : IsConsent requested form (granted_scope requested form)
  unfolding is_refused
  granted_scope-IsConsent = record {
    legacy = λ v. unboxed (other_text "2" form.consent_version v);
    transcripts_withheld = λ v unchecked.
        stopped "okk.transcripts.read" v
          (rw (other_text "1" form.grant_transcripts unchecked) refl);
    phones_withheld = λ v unchecked.
        stopped "okk.phones.read" v (rw (other_text "1" form.grant_phones unchecked) refl);
    transcripts_granted = λ checked.
        through "okk.transcripts.read" (rw (checked_text "1" form.grant_transcripts checked) refl);
    phones_granted =
        λ checked. through "okk.phones.read" (rw (checked_text "1" form.grant_phones checked) refl);
    others_granted = λ s t p. through s (rw (t, p) refl);
    ordered = in_order;
  }
