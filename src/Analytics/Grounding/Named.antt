-- ===== src/Analytics/Grounding/Named.antt =====
-- How `_ground_employee_rows` of server/okk_mcp/backend_client.py names the employee of a row.
use okk_analytics_codex_plug.Common.{
  ◌≡◌, refl, sym, ap, subst, ◌∙◌, String, true, false, not, ◌&&◌, Bool-cases, inl, inr, Option,
  is_some, str_eq,
}
use okk_analytics_codex_plug.Json.{
  Json, text, object, Row, or_null, lookup, get, has, set, truthy, dict_or_empty,
}
use okk_analytics_codex_plug.Json.Equality.{same, same-text, lookup-set, lookup-set_other}
use okk_analytics_codex_plug.Analytics.Grounding.{
  renamed, nested_of, corrected, with_nested, ground_row,
}

-- a value that is the text, if there is one
abbrev pub Says : String → Option Json → Type 0
Says s found = is_some found ≡ true → or_null found ≡ text s

renamed-Says : (k s : String) (row : Row) → Says s (lookup k (renamed k (text s) row).0)
unfolding renamed has get
renamed-Says k s row = elim (Bool-cases (is_some (lookup k row))) [
  | inr missing ↦ rw missing (λ h. cc)
  | inl there ↦ elim (Bool-cases (same (or_null (lookup k row)) (text s))) [
    | inl as_said ↦ rw (there, as_said) (λ h. same-text (or_null (lookup k row)) s as_said)
    | inr other ↦ rw (there, other, lookup-set k (text s) row) (λ h. refl)
  ]
]

-- the other keys stay
pub renamed-other :
    (j k : String) (name : Json) (row : Row)
    → str_eq j k ≡ false
    → lookup j (renamed k name row).0 ≡ lookup j row
unfolding renamed
renamed-other j k name row e = elim (Bool-cases (has k row && not (same (get k row) name))) [
  | inl change ↦ rw change (lookup-set_other j k name row e)
  | inr stays ↦ rw stays refl
]

pub corrected-text : (k s : String) (row : Row) → get k (corrected k (text s) row).0 ≡ text s
unfolding corrected get
corrected-text k s row = elim (Bool-cases (same (or_null (lookup k row)) (text s))) [
  | inl as_said ↦ rw as_said (same-text (or_null (lookup k row)) s as_said)
  | inr other ↦ rw (other, lookup-set k (text s) row) refl
]

pub corrected-other :
    (j k : String) (v : Json) (row : Row)
    → str_eq j k ≡ false
    → get j (corrected k v row).0 ≡ get j row
unfolding corrected get
corrected-other j k v row e = elim (Bool-cases (same (or_null (lookup k row)) v)) [
  | inl stays ↦ rw stays refl
  | inr change ↦ rw (change, lookup-set_other j k v row e) refl
]

-- A row that names an employee as the directory does, wherever it names one.
pub record IsNamed (id name : String) (row : Row) : Type 0 where
  pub full_name : Says name (lookup "full_name" row)
  pub employee_name : Says name (lookup "employee_name" row)
  pub nested :
      (n : Row)
      → get "employee" row ≡ object n
      → truthy (object n) ≡ true
      → (get "id" n ≡ text id) × (get "full_name" n ≡ text name)

pub object_of : (a b : Row) → object a ≡ object b → a ≡ b
unfolding dict_or_empty
object_of a b e = ap dict_or_empty e

abbrev pub card : String → String → Row → Row
unfolding corrected
card id name nested = (corrected "full_name" (text name) (corrected "id" (text id) nested).0).0

card-IsNamed :
    (id name : String) (nested row : Row)
    → Says name (lookup "full_name" row)
    → Says name (lookup "employee_name" row)
    → IsNamed id name (set "employee" (object (card id name nested)) row)
unfolding get corrected
card-IsNamed id name nested row a b =
    let v : Json = object (card id name nested) in
    record {
      full_name = subst (Says name) (sym (lookup-set_other "full_name" "employee" v row refl)) a;
      employee_name =
          subst (Says name) (sym (lookup-set_other "employee_name" "employee" v row refl)) b;
      nested = λ n h t.
          let same_card : card id name nested ≡ n =
            object_of (card id name nested) n
              (sym (ap or_null (lookup-set "employee" v row)) ∙ h) in
          subst (λ m. (get "id" m ≡ text id) × (get "full_name" m ≡ text name)) same_card
            (
              corrected-other "id" "full_name" (text name) (corrected "id" (text id) nested).0 refl
                  ∙ corrected-text "id" id nested,
              corrected-text "full_name" name (corrected "id" (text id) nested).0,
            );
    }

-- a row without a nested employee, and one that stays such a row
pub no_nested :
    {R : Type 0} (row out : Row)
    → truthy (object (nested_of row)) ≡ false
    → lookup "employee" out ≡ lookup "employee" row
    → (n : Row) → get "employee" out ≡ object n
    → truthy (object n) ≡ true
    → R
unfolding get nested_of dict_or_empty
no_nested row out empty e n h t =
    let own : nested_of row ≡ n = ap dict_or_empty (sym (ap or_null e) ∙ h) in
    let none_there : truthy (object n) ≡ false = subst (λ m. truthy (object m) ≡ false) own empty in
    cc

filled-IsNamed :
    (id name : String) (row : Row)
    → truthy (object (nested_of row)) ≡ false
    → Says name (lookup "full_name" row)
    → IsNamed id name (set "employee_name" (text name) row)
filled-IsNamed id name row empty a = record {
  full_name =
      subst (Says name) (sym (lookup-set_other "full_name" "employee_name" (text name) row refl)) a;
  employee_name = subst (Says name) (sym (lookup-set "employee_name" (text name) row)) (λ h. refl);
  nested = λ n h t.
      no_nested row (set "employee_name" (text name) row) empty
        (lookup-set_other "employee" "employee_name" (text name) row refl) n h t;
}

with_nested-IsNamed :
    (id name : String) (row : Row)
    → Says name (lookup "full_name" row)
    → Says name (lookup "employee_name" row)
    → IsNamed id name (with_nested id (text name) (nested_of row) row).0
unfolding with_nested
with_nested-IsNamed id name row a b = elim (Bool-cases (truthy (object (nested_of row)))) [
  | inl there ↦ rw there (card-IsNamed id name (nested_of row) row a b)
  | inr empty ↦ elim (Bool-cases (not (has "full_name" row) && not (has "employee_name" row))) [
    | inl bare ↦ rw (empty, bare) (filled-IsNamed id name row empty a)
    | inr said ↦
        rw (empty, said)
          (record {
            full_name = a;
            employee_name = b;
            nested = λ n h t. no_nested row row empty refl n h t;
          })
  ]
]

pub ground_row-IsNamed :
    (id name : String) (employee row : Row)
    → get "full_name" employee ≡ text name
    → IsNamed id name (ground_row id employee row).0
unfolding ground_row nested_of get
ground_row-IsNamed id name employee row e =
    let first : Row = (renamed "full_name" (text name) row).0 in
    let second : Row = (renamed "employee_name" (text name) first).0 in
    let same_lookup : lookup "employee" second ≡ lookup "employee" row =
      renamed-other "employee" "employee_name" (text name) first refl
      ∙ renamed-other "employee" "full_name" (text name) row refl in
    let same_nested : nested_of second ≡ nested_of row =
      ap (λ o. dict_or_empty (or_null o)) same_lookup in
    let full_said : Says name (lookup "full_name" second) =
      subst (Says name) (sym (renamed-other "full_name" "employee_name" (text name) first refl))
        (renamed-Says "full_name" name row) in
    subst
      (λ v.
        IsNamed id name
          (with_nested id v (nested_of row)
            (renamed "employee_name" v (renamed "full_name" v row).0).0).0)
      (sym e)
      (subst (λ n. IsNamed id name (with_nested id (text name) n second).0) same_nested
        (with_nested-IsNamed id name second full_said (renamed-Says "employee_name" name first)))
