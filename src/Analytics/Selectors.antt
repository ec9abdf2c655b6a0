-- ===== src/Analytics/Selectors.antt =====
-- What the selectors of `resolve_department` of server/okk_mcp/backend_client.py name among the rows of
-- a catalog.
use okk_analytics_codex_plug.Common.{
  ℕ, suc, ◌≡◌, ◌≢◌, refl, sym, All-map, sorted_set_same, subst, ◌∙◌, ap, String, true, false,
  Bool-cases, Option, none, some, List, [], ◌∷◌, map, All, length, ◌==◌, contains, contains-front,
  contains-behind, sorted_set, contains-sorted_set, eq_iff, inl, inr, arith,
}
use okk_analytics_codex_plug.Json.{Json, Row}
use okk_analytics_codex_plug.Effect.{Host}
use okk_analytics_codex_plug.Analytics.Journal.{id_of}
use okk_analytics_codex_plug.Analytics.Departments.{
  by_id, by_key, rows_or, matches, resolved, agreed, only, and_then,
}
use okk_analytics_codex_plug.Maintenance.Rows.{keep-All}

alone :
    (x z : String) (zs : List String)
    → (length (z ∷ zs) == 1) ≡ true
    → contains x (z ∷ zs) ≡ true
    → x ≡ z
unfolding contains
alone x z [] h k = (eq_iff x z).0 (ground arith)
alone x z (y ∷ zs) h k = cc (no_pair (length zs))
  where
    no_pair : (n : ℕ) → (suc (suc n) == 1) ≡ false
    no_pair n = ground arith

same_member :
    (x y : String) (zs : List String)
    → (length zs == 1) ≡ true
    → contains x zs ≡ true
    → contains y zs ≡ true
    → x ≡ y
unfolding contains
same_member x y [] h k l = cc
same_member x y (z ∷ zs) h k l = alone x z zs h k ∙ sym (alone y z zs h l)

both_found :
    (o : Option Row) (l : Option (List Row)) (found : List Row)
    → and_then o l ≡ some found
    → (row : Row) × (rest : List Row) × (o ≡ some row) × (l ≡ some rest) × (found ≡ row ∷ rest)
both_found none l found h = cc
both_found (some row) none found h = cc
both_found (some row) (some rest) found h = (row, rest, refl, refl, cc)

pub some_not_none : {a : Row} → some a ≢ none
some_not_none e = cc

pub some_injective : {a b : Row} → some a ≡ some b → a ≡ b
some_injective e = cc

only_one : (rows : List Row) (row : Row) → only rows ≡ some row → rows ≡ row ∷ []
only_one [] row e = cc
only_one (r ∷ []) row e = ap (λ q. q ∷ []) (some_injective e)
only_one (r ∷ (q ∷ rows)) row e = cc

module _ (host : Host) where
  -- the selector names one department of the rows, which has the id
  abbrev pub Names : List Row → String → Json → Type 0
  Names rows id v = (found : Row) × (matches host v rows ≡ found ∷ []) × (id_of host found ≡ id)

  resolved-Names :
      (rows : List Row) (id : String) (vs : List Json) (found : List Row)
      → resolved host vs rows ≡ some found
      → ((x : String) → contains x (map (id_of host) found) ≡ true → x ≡ id)
      → All (Names rows id) vs
  unfolding resolved contains
  resolved-Names rows id [] found h k = tt
  resolved-Names rows id (v ∷ vs) found h k =
      let (row, rest, one, later, both) =
        both_found (only (matches host v rows)) (resolved host vs rows) found h in
      let own =
        k (id_of host row) (rw both (contains-front (id_of host row) (map (id_of host) rest))) in
      (
        (row, only_one (matches host v rows) row one, own),
        resolved-Names rows id vs rest later
            λ x m. k x (rw both (contains-behind x (id_of host row) (map (id_of host) rest) m)),
      )

  one_id :
      (row : Row) (rest : List Row) (x : String)
      → (length (sorted_set (map (id_of host) (row ∷ rest))) == 1) ≡ true
      → contains x (map (id_of host) (row ∷ rest)) ≡ true
      → x ≡ id_of host row
  one_id row rest x h k =
      let all = map (id_of host) (row ∷ rest) in
      same_member x (id_of host row) (sorted_set all) h (contains-sorted_set x all ∙ k) (
        contains-sorted_set (id_of host row) all
        ∙ contains-front (id_of host row) (map (id_of host) rest))

  pub agreed-Names :
      (rows : List Row) (vs : List Json) (row : Row) (o : Option (List Row))
      → resolved host vs rows ≡ o
      → agreed host o ≡ some row
      → (rest : List Row) × (resolved host vs rows ≡ some (row ∷ rest))
        × All (Names rows (id_of host row)) vs
  unfolding agreed
  agreed-Names rows vs row none e h = cc
  agreed-Names rows vs row (some []) e h = cc
  agreed-Names rows vs row (some (first ∷ rest)) e h =
      elim (Bool-cases (length (sorted_set (map (id_of host) (first ∷ rest))) == 1)) [
        | inl same ↦
            let own : first ≡ row = some_injective (rw same at h) in
            rw⁻¹ own (
              rest,
              e,
              resolved-Names rows (id_of host first) vs (first ∷ rest) e
                  λ x k. one_id first rest x same k,
            )
        | inr differ ↦ cc (rw differ at h)
      ]

  only-All :
      (P : Row → Type 0) (rows : List Row) (row : Row) → All P rows → only rows ≡ some row → P row
  only-All P [] row h e = cc
  only-All P (r ∷ []) row h e = subst P (some_injective e) h.0
  only-All P (r ∷ (q ∷ rows)) row h e = cc

  rows_or-All : (P : Row → Type 0) (xs ys : List Row) → All P xs → All P ys → All P (rows_or xs ys)
  rows_or-All P [] ys h k = k
  rows_or-All P (x ∷ xs) ys h k = h

  matches-All :
      (P : Row → Type 0) (v : Json) (rows : List Row) → All P rows → All P (matches host v rows)
  unfolding matches by_id by_key
  matches-All P v rows h =
      rows_or-All P (by_id host v rows) (by_key host v rows) (keep-All P P _ rows (λ row k p. p) h)
        (keep-All P P _ rows (λ row k p. p) h)

  -- the first one that is found is one of the rows
  pub first-All :
      (P : Row → Type 0) (rows : List Row) (vs : List Json) (row : Row) (rest : List Row)
      → All P rows
      → resolved host vs rows ≡ some (row ∷ rest)
      → P row
  unfolding resolved
  first-All P rows [] row rest h e = cc
  first-All P rows (v ∷ vs) row rest h e =
      let (r, later, one, others, both) =
        both_found (only (matches host v rows)) (resolved host vs rows) (row ∷ rest) e in
      only-All P (matches host v rows) row (matches-All P v rows h) (one ∙ ap some (cc))

  -- the departments that are found when each selector names one
  pub resolved-Same :
      (rows : List Row) (id : String) (vs : List Json)
      → All (Names rows id) vs
      → (found : List Row) × (resolved host vs rows ≡ some found)
        × All (λ x. x ≡ id) (map (id_of host) found)
        × (length found ≡ length vs)
  unfolding resolved
  resolved-Same rows id [] h = ([], refl, tt, refl)
  resolved-Same rows id (v ∷ vs) h =
      let ((row, one, own), later) = h in
      let (found, e, same, size) = resolved-Same rows id vs later in
      (row ∷ found, rw (one, e) refl, (own, same), ap suc size)

  -- selectors that all name one department find it
  pub agreed-Same :
      (found : List Row) (id : String) (n : ℕ)
      → All (λ x. x ≡ id) (map (id_of host) found)
      → length found ≡ suc n
      → agreed host (some found) ≢ none
  unfolding agreed
  agreed-Same [] id n h size = λ e. absurd (omega (arith, size))
  agreed-Same (row ∷ rest) id n h size =
      let set : sorted_set (map (id_of host) (row ∷ rest)) ≡ id_of host row ∷ [] =
        sorted_set_same (id_of host row) (map (id_of host) rest) (
          All-map (λ x. x ≡ id) (λ x. x ≡ id_of host row) (map (id_of host) rest)
            (λ x e. e ∙ sym h.0) h.1) in
      λ e. some_not_none (rw set at e)
