-- ===== src/Analytics/Grounding/Rest.antt =====
-- What `_ground_employee_rows` of server/okk_mcp/backend_client.py leaves of a row as it is.
use okk_analytics_codex_plug.Common.{
  ◌≡◌, refl, sym, ap, subst, ◌∙◌, arith, String, true, false, not, ◌&&◌, ◌||◌, Bool-cases, inl, inr,
  is_some, str_eq,
}
use okk_analytics_codex_plug.Json.{
  Json, text, object, Row, or_null, lookup, get, has, set, truthy, dict_or_empty,
}
use okk_analytics_codex_plug.Json.Equality.{lookup-set, lookup-set_other}
use okk_analytics_codex_plug.Analytics.Grounding.{
  renamed, nested_of, corrected, with_nested, ground_row,
}
use okk_analytics_codex_plug.Analytics.Grounding.Named.{
  renamed-other, corrected-other, card, object_of, no_nested,
}

-- a key that says neither who the employee is nor what the name is
abbrev pub Unrelated : String → Type 0
Unrelated k =
    (str_eq k "full_name" ≡ false)
    × (str_eq k "employee_name" ≡ false)
    × (str_eq k "employee" ≡ false)

-- A row that was grounded has the data of the given one, and names its employee.
pub record KeepsRest (row out : Row) : Type 0 where
  pub rest : (k : String) → Unrelated k → lookup k out ≡ lookup k row
  pub nested_rest :
      (n : Row) (k : String)
      → get "employee" out ≡ object n
      → truthy (object n) ≡ true
      → str_eq k "id" ≡ false
      → str_eq k "full_name" ≡ false
      → get k n ≡ get k (nested_of row)
  pub some_name :
      (has "full_name" out || has "employee_name" out || truthy (object (nested_of row))) ≡ true

module _ (id name : String) (row : Row) where
  with_nested-rest :
      (k : String) (nested : Row)
      → Unrelated k
      → lookup k (with_nested id (text name) nested row).0 ≡ lookup k row
  unfolding with_nested
  with_nested-rest k nested (f, n, e) = elim (Bool-cases (truthy (object nested))) [
    | inl there ↦ rw there (lookup-set_other k "employee" _ row e)
    | inr empty ↦ elim (Bool-cases (not (has "full_name" row) && not (has "employee_name" row))) [
      | inl bare ↦ rw (empty, bare) (lookup-set_other k "employee_name" (text name) row n)
      | inr said ↦ rw (empty, said) refl
    ]
  ]

  card-rest :
      (k : String) (nested : Row)
      → str_eq k "id" ≡ false
      → str_eq k "full_name" ≡ false
      → get k (card id name nested) ≡ get k nested
  unfolding corrected
  card-rest k nested i f =
      corrected-other k "full_name" (text name) (corrected "id" (text id) nested).0 f
      ∙ corrected-other k "id" (text id) nested i

  with_nested-nested :
      (n : Row) (k : String)
      → get "employee" (with_nested id (text name) (nested_of row) row).0 ≡ object n
      → truthy (object n) ≡ true
      → str_eq k "id" ≡ false
      → str_eq k "full_name" ≡ false
      → get k n ≡ get k (nested_of row)
  unfolding with_nested get corrected
  with_nested-nested n k h t i f = elim (Bool-cases (truthy (object (nested_of row)))) [
    | inl there ↦
        let v : Json = object (card id name (nested_of row)) in
        let same_card : card id name (nested_of row) ≡ n =
          object_of (card id name (nested_of row)) n
            (sym (ap or_null (lookup-set "employee" v row)) ∙ (rw there at h)) in
        subst (λ m. get k m ≡ get k (nested_of row)) same_card (card-rest k (nested_of row) i f)
    | inr empty ↦ elim (Bool-cases (not (has "full_name" row) && not (has "employee_name" row))) [
      | inl bare ↦
          no_nested row (set "employee_name" (text name) row) empty
            (lookup-set_other "employee" "employee_name" (text name) row refl) n
            (rw (empty, bare) at h) t
      | inr said ↦ no_nested row row empty refl n (rw (empty, said) at h) t
    ]
  ]

  with_nested-some_name :
      (has "full_name" (with_nested id (text name) (nested_of row) row).0
        || has "employee_name" (with_nested id (text name) (nested_of row) row).0
        || truthy (object (nested_of row)))
      ≡ true
  unfolding with_nested has
  with_nested-some_name = elim (Bool-cases (truthy (object (nested_of row)))) [
    | inl there ↦ rw there (ground arith)
    | inr empty ↦
        elim (Bool-cases
          (not (is_some (lookup "full_name" row)) && not (is_some (lookup "employee_name" row)))) [
            | inl bare ↦ rw (empty, bare, lookup-set "employee_name" (text name) row) (ground arith)
            | inr said ↦ rw (empty, said) (ground (arith, said))
          ]
  ]

pub ground_row-KeepsRest :
    (id name : String) (employee row : Row)
    → get "full_name" employee ≡ text name
    → KeepsRest row (ground_row id employee row).0
unfolding ground_row nested_of get
ground_row-KeepsRest id name employee row e =
    let first : Row = (renamed "full_name" (text name) row).0 in
    let second : Row = (renamed "employee_name" (text name) first).0 in
    let same_lookup : lookup "employee" second ≡ lookup "employee" row =
      renamed-other "employee" "employee_name" (text name) first refl
      ∙ renamed-other "employee" "full_name" (text name) row refl in
    let same_nested : nested_of second ≡ nested_of row =
      ap (λ o. dict_or_empty (or_null o)) same_lookup in
    subst
      (λ v.
        KeepsRest row
          (with_nested id v (nested_of row)
            (renamed "employee_name" v (renamed "full_name" v row).0).0).0)
      (sym e)
      (subst (λ m. KeepsRest row (with_nested id (text name) m second).0) same_nested
        (record {
          rest = λ k u.
              with_nested-rest id name second k (nested_of second) u
              ∙ renamed-other k "employee_name" (text name) first (u.1)
              ∙ renamed-other k "full_name" (text name) row (u.0);
          nested_rest =
              λ n k h t i f. with_nested-nested id name second n k h t i f ∙ ap (get k) same_nested;
          some_name =
              subst
                (λ m.
                  (has "full_name" (with_nested id (text name) (nested_of second) second).0
                    || has "employee_name" (with_nested id (text name) (nested_of second) second).0
                    || truthy (object m))
                  ≡ true)
                same_nested (with_nested-some_name id name second);
        }))
