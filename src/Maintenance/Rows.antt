-- ===== src/Maintenance/Rows.antt =====
-- What the statements of the cleanup do to rows that they leave alone.
use okk_analytics_codex_plug.Common.{
  ℕ, ◌≡◌, refl, Bool, true, false, Bool-cases, inl, inr, List, [], ◌∷◌, keep, any, find_first, ◌||◌,
  ap, All, take, zero, suc,
}
use okk_analytics_codex_plug.Models.{update_where}

or_true : (b : Bool) → b || true ≡ true
or_true true = refl
or_true false = refl

module _ {ℓ} {A : Type ℓ} where
  -- A test that only kept rows pass selects the same rows after a deletion.
  pub keep-keep :
      (p q : A → Bool) (xs : List A)
      → ((x : A) → p x ≡ true → q x ≡ true)
      → keep p (keep q xs) ≡ keep p xs
  keep-keep p q [] h = refl
  keep-keep p q (x ∷ xs) h = elim (Bool-cases (p x)) [
    | inl e ↦ rw (h x e, e) (ap (λ ys. x ∷ ys) (keep-keep p q xs h))
    | inr e ↦ elim (Bool-cases (q x)) [
      | inl k ↦ rw (k, e) (keep-keep p q xs h)
      | inr k ↦ rw (k, e) (keep-keep p q xs h)
    ]
  ]

  -- A test that no updated row passes, before or after, selects the same rows after an update.
  pub keep-update_where :
      (P : A → Type 0) (p q : A → Bool) (f : A → A) (xs : List A)
      → All P xs
      → ((x : A) → P x → q x ≡ true → p x ≡ false)
      → ((x : A) → p (f x) ≡ p x)
      → keep p (update_where q f xs) ≡ keep p xs
  keep-update_where P p q f [] a h k = refl
  keep-update_where P p q f (x ∷ xs) a h k = elim (Bool-cases (q x)) [
    | inl e ↦ rw (e, k x, h x a.0 e) (keep-update_where P p q f xs a.1 h k)
    | inr e ↦ rw (e, keep-update_where P p q f xs a.1 h k)
  ]

  -- What holds of all rows holds of those that are kept, which pass the test.
  pub keep-All :
      (P Q : A → Type 0) (q : A → Bool) (xs : List A)
      → ((x : A) → q x ≡ true → P x → Q x)
      → All P xs
      → All Q (keep q xs)
  keep-All P Q q [] f h = tt
  keep-All P Q q (x ∷ xs) f h = elim (Bool-cases (q x)) [
    | inl e ↦ rw e (f x e h.0, keep-All P Q q xs f h.1)
    | inr e ↦ rw e (keep-All P Q q xs f h.1)
  ]

  pub take-All : (P : A → Type 0) (n : ℕ) (xs : List A) → All P xs → All P (take n xs)
  take-All P zero xs h = tt
  take-All P (suc n) [] h = tt
  take-All P (suc n) (x ∷ xs) h = (h.0, take-All P n xs h.1)

  pub everything : (xs : List A) → All {ℓ, 0} (λ x. Unit) xs
  everything [] = tt
  everything (x ∷ xs) = (tt, everything xs)

  -- A row that passes a test is among those kept, if the test keeps all such rows.
  pub any-keep :
      (p r q : A → Bool) (xs : List A)
      → ((x : A) → p x ≡ true → (r x ≡ true) × (q x ≡ true))
      → any p xs ≡ true
      → any r (keep q xs) ≡ true
  any-keep p r q [] h e = cc
  any-keep p r q (x ∷ xs) h e = elim (Bool-cases (p x)) [
    | inl k ↦ rw ((h x k).1, (h x k).0) refl
    | inr k ↦
        let later = any-keep p r q xs h (rw k at e) in
        elim (Bool-cases (q x)) [ inl l ↦ rw (l, later) (or_true (r x)) | inr l ↦ rw l later ]
  ]

  -- A query whose row is kept finds the same row after a deletion.
  pub find_first-keep :
      (p q : A → Bool) (xs : List A)
      → ((x : A) → p x ≡ true → q x ≡ true)
      → find_first p (keep q xs) ≡ find_first p xs
  find_first-keep p q [] h = refl
  find_first-keep p q (x ∷ xs) h = elim (Bool-cases (p x)) [
    | inl e ↦ rw (h x e, e) refl
    | inr e ↦ elim (Bool-cases (q x)) [
      | inl k ↦ rw (k, e) (find_first-keep p q xs h)
      | inr k ↦ rw (k, e) (find_first-keep p q xs h)
    ]
  ]

  -- A query finds the same row after an update of rows that it does not select.
  pub find_first-elsewhere :
      (p q : A → Bool) (f : A → A) (xs : List A)
      → ((x : A) → q x ≡ true → p x ≡ false)
      → ((x : A) → p (f x) ≡ p x)
      → find_first p (update_where q f xs) ≡ find_first p xs
  find_first-elsewhere p q f [] h k = refl
  find_first-elsewhere p q f (x ∷ xs) h k = elim (Bool-cases (q x)) [
    | inl e ↦ rw (e, k x, h x e) (find_first-elsewhere p q f xs h k)
    | inr e ↦ rw (e, find_first-elsewhere p q f xs h k)
  ]
