-- ===== src/Common/Order.antt =====
-- Sets of texts as Python's `sorted(set(...))` lists them, and membership in lists of texts.
use Prim.Native.Char.{code}
use Prim.Native.Nat.{ℕ, Ordering, compare as compare_ℕ}
use Prim.Native.String.compare as compare_clauses
use Prim.Native.String.{String, compare, then as refine}
use mathlib.Core.Path.{◌≡◌, refl, sym, subst}
use mathlib.Core.Bool.{Bool, true, false, ◌||◌}
use mathlib.Core.List.{List, [], ◌∷◌}
use native.Mathlib.Omega.{arith}
use text.Mathlib.Text.{◌==◌, is_eq}
use text.Mathlib.TextEquality.{path_by_compare, eq_iff}
use okk_analytics_codex_plug.Common.Lists.{all, All}

-- `x in xs`
unfoldable pub contains : String → List String → Bool
contains x [] = false
contains x (y ∷ ys) = x == y || contains x ys

-- `set(xs).issubset(ys)`
abbrev pub subset : List String → List String → Bool
subset xs ys = all (λ x. contains x ys) xs

abbrev place : Ordering → String → String → List String → List String → List String
place Ordering.lt x y ys rest = x ∷ (y ∷ ys)
place Ordering.eq x y ys rest = y ∷ ys
place Ordering.gt x y ys rest = y ∷ rest

unfoldable pub insert_sorted : String → List String → List String
insert_sorted x [] = x ∷ []
insert_sorted x (y ∷ ys) = place (compare x y) x y ys (insert_sorted x ys)

-- `sorted(set(xs))`
unfoldable pub sorted_set : List String → List String
unfolding insert_sorted
sorted_set [] = []
sorted_set (x ∷ xs) = insert_sorted x (sorted_set xs)

-- Each text is below the next one: sorted and with no text twice.
abbrev pub Below : String → List String → Type 0
Below x [] = Unit
Below x (y ∷ ys) = compare x y ≡ Ordering.lt

abbrev pub IsSorted : List String → Type 0
IsSorted [] = Unit
IsSorted (x ∷ xs) = Below x xs × IsSorted xs

code_flip : (m n : ℕ) → compare_ℕ m n ≡ Ordering.gt → compare_ℕ n m ≡ Ordering.lt
code_flip m n h = ground arith

flip_then :
    (m n : ℕ) (o p : Ordering)
    → (o ≡ Ordering.gt → p ≡ Ordering.lt)
    → refine (compare_ℕ m n) o ≡ Ordering.gt
    → refine (compare_ℕ n m) p ≡ Ordering.lt
flip_then m n o p f h = ground (arith, code_flip m n)

pub compare_flip : (s t : String) → compare s t ≡ Ordering.gt → compare t s ≡ Ordering.lt
compare_flip String.[] String.[] h = cc
compare_flip String.[] (String.◌∷◌ d t) h = cc (compare_clauses.nil-cons d t)
compare_flip (String.◌∷◌ c s) String.[] h = compare_clauses.nil-cons c s
compare_flip (String.◌∷◌ c s) (String.◌∷◌ d t) h = rw (compare_clauses.cons-cons d c t s) (
    flip_then (code c) (code d) (compare s t) (compare t s) (compare_flip s t)
      (rw (compare_clauses.cons-cons c d s t) at h))

insert-Below :
    (y x : String) (xs : List String)
    → compare y x ≡ Ordering.lt
    → Below y xs
    → Below y (insert_sorted x xs)
unfolding insert_sorted
insert-Below y x [] h b = h
insert-Below y x (z ∷ zs) h b = ground arith

pub insert-IsSorted : (x : String) (xs : List String) → IsSorted xs → IsSorted (insert_sorted x xs)
unfolding insert_sorted
insert-IsSorted x [] h = (tt, tt)
insert-IsSorted x (y ∷ ys) h =
    ground (arith, compare_flip x y, insert-Below y x ys, insert-IsSorted x ys h.1)

pub sorted_set-IsSorted : (xs : List String) → IsSorted (sorted_set xs)
unfolding sorted_set
sorted_set-IsSorted [] = tt
sorted_set-IsSorted (x ∷ xs) = insert-IsSorted x (sorted_set xs) (sorted_set-IsSorted xs)

insert_front : (x : String) (xs : List String) → Below x xs → insert_sorted x xs ≡ x ∷ xs
unfolding insert_sorted
insert_front x [] b = refl
insert_front x (y ∷ ys) b = rw b

-- A sorted list without repetitions is its own set.
pub sorted_set_fixed : (xs : List String) → IsSorted xs → sorted_set xs ≡ xs
unfolding sorted_set
sorted_set_fixed [] h = refl
sorted_set_fixed (x ∷ xs) h = rw (sorted_set_fixed xs h.1, insert_front x xs h.0)

-- The set holds what the list holds.
contains-insert_sorted :
    (z x : String) (xs : List String) → contains z (insert_sorted x xs) ≡ (z == x || contains z xs)
unfolding insert_sorted contains
contains-insert_sorted z x [] = refl
contains-insert_sorted z x (y ∷ ys) =
    ground (arith, contains-insert_sorted z x ys, path_by_compare x y)

pub contains-sorted_set :
    (z : String) (xs : List String) → contains z (sorted_set xs) ≡ contains z xs
unfolding sorted_set contains
contains-sorted_set z [] = refl
contains-sorted_set z (x ∷ xs) =
    rw (contains-insert_sorted z x (sorted_set xs), contains-sorted_set z xs)

-- A predicate on the members survives the sorting, both ways.
All-place {ℓ} :
    (P : String → Type ℓ) (o : Ordering) (x y : String) (ys rest : List String)
    → P x
    → All P (y ∷ ys)
    → All P rest
    → All P (place o x y ys rest)
All-place P Ordering.lt x y ys rest px h r = (px, h)
All-place P Ordering.eq x y ys rest px h r = h
All-place P Ordering.gt x y ys rest px h r = (h.0, r)

All-insert_sorted {ℓ} :
    (P : String → Type ℓ) (x : String) (xs : List String)
    → P x
    → All P xs
    → All P (insert_sorted x xs)
unfolding insert_sorted
All-insert_sorted P x [] px h = (px, tt)
All-insert_sorted P x (y ∷ ys) px h =
    All-place P (compare x y) x y ys (insert_sorted x ys) px h (All-insert_sorted P x ys px h.1)

pub All-sorted_set {ℓ} : (P : String → Type ℓ) (xs : List String) → All P xs → All P (sorted_set xs)
unfolding sorted_set
All-sorted_set P [] h = tt
All-sorted_set P (x ∷ xs) h = All-insert_sorted P x (sorted_set xs) h.0 (All-sorted_set P xs h.1)

same_place : (o : Ordering) (x : String) → is_eq o ≡ true → place o x x [] (x ∷ []) ≡ x ∷ []
same_place Ordering.lt x h = cc
same_place Ordering.eq x h = refl
same_place Ordering.gt x h = cc

-- the set of a list that holds one text only
pub sorted_set_same :
    (x : String) (xs : List String) → All (λ y. y ≡ x) xs → sorted_set (x ∷ xs) ≡ x ∷ []
unfolding sorted_set insert_sorted
sorted_set_same x [] h = refl
sorted_set_same x (y ∷ ys) h =
    subst (λ z. insert_sorted x (insert_sorted z (sorted_set ys)) ≡ x ∷ []) (sym h.0)
      (rw (sorted_set_same x ys h.1) (same_place (compare x x) x ((eq_iff x x).1 refl)))
