-- ===== src/Models/Rows.antt =====
-- What holds of the rows of a table, after a query and after an update.
use okk_analytics_codex_plug.Common.{
  arith, ap, ◌≡◌, refl, Bool, true, false, Bool-cases, inl, inr, Option, none, some, List, [], ◌∷◌,
  All, find_first, if◌then◌else◌,
}
use okk_analytics_codex_plug.Models.{update_where}

module _ {ℓ} {A : Type ℓ} (p : A → Bool) where
  -- What a query found passes its test.
  pub find_first-selected : (xs : List A) (x : A) → find_first p xs ≡ some x → p x ≡ true
  find_first-selected [] x h = cc
  find_first-selected (y ∷ ys) x h = elim (Bool-cases (p y)) [
    | inl e ↦ ground (arith, e)
    | inr e ↦ find_first-selected ys x (rw e at h)
  ]

module _ {ℓ κ} {A : Type ℓ} (P : A → Type κ) where
  -- What a query found, if it found a row, has the property.
  abbrev pub Found : Option A → Type κ
  Found none = Unit
  Found (some x) = P x

  pub find_first-Found : (p : A → Bool) (xs : List A) → All P xs → Found (find_first p xs)
  find_first-Found p [] h = tt
  find_first-Found p (x ∷ xs) h = elim (Bool-cases (p x)) [
    | inl e ↦ rw e h.0
    | inr e ↦ rw e (find_first-Found p xs h.1)
  ]

  update-row : (b : Bool) (x y : A) → P x → (b ≡ true → P y) → P (if b then y else x)
  update-row true x y px py = py refl
  update-row false x y px py = px

  pub update_where-All :
      (p : A → Bool) (f : A → A) (xs : List A)
      → ((x : A) → p x ≡ true → P x → P (f x))
      → All P xs
      → All P (update_where p f xs)
  update_where-All p f [] k h = tt
  update_where-All p f (x ∷ xs) k h =
      (update-row (p x) x (f x) h.0 (λ e. k x e h.0), update_where-All p f xs k h.1)

  -- An update makes the property hold of each row that it selects.
  pub update_where-makes :
      (p : A → Bool) (f : A → A) (xs : List A)
      → ((x : A) → P (f x))
      → ((x : A) → p x ≡ false → P x)
      → All P (update_where p f xs)
  update_where-makes p f [] k h = tt
  update_where-makes p f (x ∷ xs) k h = (
    elim (Bool-cases (p x)) [ inl e ↦ rw e (k x) | inr e ↦ rw e (h x e) ],
    update_where-makes p f xs k h,
  )

abbrev map_some {ℓ} : {A : Type ℓ} → (A → A) → Option A → Option A
map_some f none = none
map_some f (some x) = some (f x)

module _ {ℓ} {A : Type ℓ} (p : A → Bool) (f : A → A) where
  -- A query finds the row that the same test selected for an update, if the update keeps the test.
  pub find_first-update_where :
      (xs : List A) (x : A)
      → ((y : A) → p y ≡ true → p (f y) ≡ true)
      → find_first p xs ≡ some x
      → find_first p (update_where p f xs) ≡ some (f x)
  find_first-update_where [] x k h = cc
  find_first-update_where (y ∷ ys) x k h = elim (Bool-cases (p y)) [
    | inl e ↦ rw (e, k y e) (ap (map_some f) (rw e at h))
    | inr e ↦ rw (e, e) (find_first-update_where ys x k (rw e at h))
  ]
