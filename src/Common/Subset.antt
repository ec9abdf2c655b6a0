-- ===== src/Common/Subset.antt =====
-- Inclusion of sets of texts.
use Prim.Native.String.{String}
use mathlib.Core.Path.{◌≡◌, refl}
use mathlib.Core.Logic.{inl, inr}
use mathlib.Core.Bool.{Bool, true, false, ◌&&◌, ◌||◌}
use mathlib.Core.List.{List, [], ◌∷◌, ◌++◌}
use native.Mathlib.Omega.{arith}
use text.Mathlib.Text.{◌==◌}
use text.Mathlib.TextEquality.{eq_iff}
use okk_analytics_codex_plug.Common.Tests.{Bool-cases}
use okk_analytics_codex_plug.Common.Order.{contains, subset}

and_true : {a b : Bool} → a && b ≡ true → (a ≡ true) × (b ≡ true)
and_true {a = true} {b = true} h = (refl, refl)
and_true {a = true} {b = false} h = cc
and_true {a = false} {b = b} h = cc

-- a member of a subset is a member of the set
pub contains-subset :
    (x : String) (ys zs : List String)
    → contains x ys ≡ true
    → subset ys zs ≡ true
    → contains x zs ≡ true
unfolding contains
contains-subset x [] zs h s = cc
contains-subset x (y ∷ ys) zs h s = elim (Bool-cases (x == y)) [
  | inl e ↦ rw ((eq_iff x y).0 e) (and_true s).0
  | inr e ↦ contains-subset x ys zs (rw e at h) (and_true s).1
]

pub subset_trans :
    (xs ys zs : List String) → subset xs ys ≡ true → subset ys zs ≡ true → subset xs zs ≡ true
subset_trans [] ys zs h k = refl
subset_trans (x ∷ xs) ys zs h k =
    rw (contains-subset x ys zs (and_true h).0 k) (subset_trans xs ys zs (and_true h).1 k)

pub contains-append :
    (x : String) (xs ys : List String) → contains x (xs ++ ys) ≡ (contains x xs || contains x ys)
unfolding contains
contains-append x [] ys = refl
contains-append x (y ∷ xs) ys = ground (arith, contains-append x xs ys)

pub contains-front : (x : String) (xs : List String) → contains x (x ∷ xs) ≡ true
unfolding contains
contains-front x xs = rw ((eq_iff x x).1 refl)

pub contains-behind :
    (x y : String) (xs : List String) → contains x xs ≡ true → contains x (y ∷ xs) ≡ true
unfolding contains
contains-behind x y xs h = ground (arith, h)

-- a set whose members another one has is its subset
pub subset_of_members :
    (xs ys : List String)
    → ((x : String) → contains x xs ≡ true → contains x ys ≡ true)
    → subset xs ys ≡ true
subset_of_members [] ys h = refl
subset_of_members (x ∷ xs) ys h =
    rw (h x (contains-front x xs)) (subset_of_members xs ys λ y k. h y (contains-behind y x xs k))
