-- ===== src/Analytics/Journal/Distinct.antt =====
-- The first rows of each id, as a reference for the loop of `_journal_pages` in
-- server/okk_mcp/backend_client.py.
use okk_analytics_codex_plug.Common.{
  ℕ, zero, suc, ◌≡◌, refl, ◌∙◌, sym, String, Bool, true, false, not, ◌||◌, List, [], ◌∷◌, ◌++◌, map,
  take, keep, contains, str_eq, eq_iff, Bool-cases, inl, inr, arith,
}
use okk_analytics_codex_plug.Json.{Row}
use okk_analytics_codex_plug.Effect.{Host}
use okk_analytics_codex_plug.Analytics.Journal.{id_of, fresh}

same : (x y z : String) → str_eq z x ≡ true → str_eq y z ≡ true → str_eq y x ≡ true
same x y z p q = (eq_iff y x).1 ((eq_iff y z).0 q ∙ (eq_iff z x).0 p)

pub flip : (x y : String) → str_eq x y ≡ true → str_eq y x ≡ true
flip x y p = (eq_iff y x).1 (sym ((eq_iff x y).0 p))

module _ (host : Host) where
  abbrev pub ids : List Row → List String
  ids rows = map (id_of host) rows

  -- no id stands twice
  abbrev pub IsDistinct : List Row → Type 0
  IsDistinct [] = Unit
  IsDistinct (row ∷ rows) = (contains (id_of host row) (ids rows) ≡ false) × IsDistinct rows

  abbrev pub others : String → List Row → List Row
  others x rows = keep (λ row. not (str_eq (id_of host row) x)) rows

  -- the rows whose id did not stand before
  unfoldable pub firsts : List Row → List Row
  firsts [] = []
  firsts (row ∷ rows) = row ∷ others (id_of host row) (firsts rows)

  split_test : (a b c : Bool) → not (a || b) ≡ true → (not a ≡ true) × (not b ≡ true)
  split_test a b c h = ground arith

  keep_both :
      (x : String) (seen : List String) (rows : List Row)
      → others x (fresh host seen rows) ≡ fresh host (x ∷ seen) rows
  unfolding fresh contains
  keep_both x seen [] = refl
  keep_both x seen (row ∷ rows) = ground (arith, keep_both x seen rows)

  others-append : (x : String) (xs ys : List Row) → others x (xs ++ ys) ≡ others x xs ++ others x ys
  others-append x [] ys = refl
  others-append x (row ∷ xs) ys = ground (arith, others-append x xs ys)

  fresh_nil : (rows : List Row) → fresh host [] rows ≡ rows
  unfolding fresh contains
  fresh_nil [] = refl
  fresh_nil (row ∷ rows) = rw (fresh_nil rows)

  pub firsts-append :
      (xs ys : List Row) → firsts (xs ++ ys) ≡ firsts xs ++ fresh host (ids xs) (firsts ys)
  unfolding firsts
  firsts-append [] ys = sym (fresh_nil (firsts ys))
  firsts-append (row ∷ xs) ys = rw (
    firsts-append xs ys,
    others-append (id_of host row) (firsts xs) (fresh host (ids xs) (firsts ys)),
    keep_both (id_of host row) (ids xs) (firsts ys),
  )

  -- the first rows name the ids that all rows name
  contains-others :
      (x y : String) (rows : List Row)
      → (str_eq y x ≡ false)
      → contains y (ids (others x rows)) ≡ contains y (ids rows)
  unfolding contains
  contains-others x y [] h = refl
  contains-others x y (row ∷ rows) h =
      ground (arith, contains-others x y rows h, same x y (id_of host row))

  contains-firsts :
      (y : String) (rows : List Row) → contains y (ids (firsts rows)) ≡ contains y (ids rows)
  unfolding firsts contains
  contains-firsts y [] = refl
  contains-firsts y (row ∷ rows) = elim (Bool-cases (str_eq y (id_of host row))) [
    | inl e ↦ rw e
    | inr e ↦ rw (contains-others (id_of host row) y (firsts rows) e, contains-firsts y rows)
  ]

  fresh-same :
      (seen known : List String) (rows : List Row)
      → ((y : String) → contains y seen ≡ contains y known)
      → fresh host seen rows ≡ fresh host known rows
  unfolding fresh
  fresh-same seen known [] h = refl
  fresh-same seen known (row ∷ rows) h = rw (h (id_of host row), fresh-same seen known rows h)

  others_absent :
      (x : String) (rows : List Row) → contains x (ids rows) ≡ false → others x rows ≡ rows
  unfolding contains
  others_absent x [] h = refl
  others_absent x (row ∷ rows) h = ground (arith, others_absent x rows, flip (id_of host row) x)

  pub firsts-IsDistinct_lem : (rows : List Row) → IsDistinct rows → firsts rows ≡ rows
  unfolding firsts
  firsts-IsDistinct_lem [] h = refl
  firsts-IsDistinct_lem (row ∷ rows) h =
      rw (firsts-IsDistinct_lem rows h.1, others_absent (id_of host row) rows h.0)

  -- One more page behind the first rows of those before.
  pub firsts-page :
      (listed page : List Row)
      → IsDistinct page
      → firsts (listed ++ page) ≡ firsts listed ++ fresh host (ids (firsts listed)) page
  firsts-page listed page h = rw (
    firsts-append listed page,
    firsts-IsDistinct_lem page h,
    fresh-same (ids (firsts listed)) (ids listed) page λ y. contains-firsts y listed,
  )

  absent-others :
      (x y : String) (rows : List Row)
      → contains y (ids rows) ≡ false
      → contains y (ids (others x rows)) ≡ false
  unfolding contains
  absent-others x y [] h = refl
  absent-others x y (row ∷ rows) h = ground (arith, absent-others x y rows)

  others-IsDistinct : (x : String) (rows : List Row) → IsDistinct rows → IsDistinct (others x rows)
  others-IsDistinct x [] h = tt
  others-IsDistinct x (row ∷ rows) h = elim (Bool-cases (str_eq (id_of host row) x)) [
    | inl e ↦ rw e (others-IsDistinct x rows h.1)
    | inr e ↦ rw e (absent-others x (id_of host row) rows h.0, others-IsDistinct x rows h.1)
  ]

  others_gone : (x : String) (rows : List Row) → contains x (ids (others x rows)) ≡ false
  unfolding contains
  others_gone x [] = refl
  others_gone x (row ∷ rows) = ground (arith, others_gone x rows, flip x (id_of host row))

  pub firsts-IsDistinct : (rows : List Row) → IsDistinct (firsts rows)
  unfolding firsts
  firsts-IsDistinct [] = tt
  firsts-IsDistinct (row ∷ rows) = (
    others_gone (id_of host row) (firsts rows),
    others-IsDistinct (id_of host row) (firsts rows) (firsts-IsDistinct rows),
  )

  absent-take :
      (n : ℕ) (y : String) (rows : List Row)
      → contains y (ids rows) ≡ false
      → contains y (ids (take n rows)) ≡ false
  unfolding contains
  absent-take zero y rows h = refl
  absent-take (suc n) y [] h = refl
  absent-take (suc n) y (row ∷ rows) h = ground (arith, absent-take n y rows)

  pub take-IsDistinct : (n : ℕ) (rows : List Row) → IsDistinct rows → IsDistinct (take n rows)
  take-IsDistinct zero rows h = tt
  take-IsDistinct (suc n) [] h = tt
  take-IsDistinct (suc n) (row ∷ rows) h =
      (absent-take n (id_of host row) rows h.0, take-IsDistinct n rows h.1)
