-- ===== src/Analytics/Grounding.antt =====
-- `_ground_employee_rows` of server/okk_mcp/backend_client.py: rows that name employees, with the names of
-- the directory.
pub mod Named
pub mod Rest
pub mod Kept
use okk_analytics_codex_plug.Common.{
  ℕ, suc, String, Bool, true, false, not, ◌&&◌, ◌||◌, Option, none, some, List, [], ◌∷◌, map, keep,
  if◌then◌else◌,
}
use okk_analytics_codex_plug.Json.{
  Json, text, array, object, Row, get, has, set, truthy, items, dict_or_empty,
}
use okk_analytics_codex_plug.Json.Equality.{same}
use okk_analytics_codex_plug.Json.Spelling.{spell, spell_or_empty}
use okk_analytics_codex_plug.Effect.{Host}
use okk_analytics_codex_plug.Analytics.Journal.{id_of}
use okk_analytics_codex_plug.Analytics.Employees.{Index, indexed}

-- the rows that are kept, how many are left out, and how many kept rows said something else
abbrev pub Grounded : Type 0
Grounded = List Row × ℕ × ℕ

-- a name of the row, as the directory has it, and whether it was another
unfoldable pub renamed : String → Json → Row → Row × Bool
unfolding has get set same
renamed k name row =
    if has k row && not (same (get k row) name) then (set k name row, true) else (row, false)

unfoldable pub nested_of : Row → Row
unfolding get dict_or_empty
nested_of row = dict_or_empty (get "employee" row)

-- a value of the nested employee
unfoldable pub corrected : String → Json → Row → Row × Bool
unfolding get set same
corrected k v nested = if same (get k nested) v then (nested, false) else (set k v nested, true)

-- the nested employee, or else a name for a row that has none
unfoldable pub with_nested : String → Json → Row → Row → Row × Bool
unfolding corrected truthy has set
with_nested id name nested row =
    let with_id = corrected "id" (text id) nested in
    let with_name = corrected "full_name" name with_id.0 in
    if truthy (object nested)
    then (set "employee" (object with_name.0) row, with_id.1 || with_name.1)
    else if not (has "full_name" row) && not (has "employee_name" row)
    then (set "employee_name" name row, false)
    else (row, false)

-- a row of an employee of the directory
unfoldable pub ground_row : String → Row → Row → Row × Bool
unfolding renamed nested_of with_nested get
ground_row id employee row =
    let name = get "full_name" employee in
    let a = renamed "full_name" name row in
    let b = renamed "employee_name" name a.0 in
    let c = with_nested id name (nested_of row) b.0 in (c.0, a.1 || b.1 || c.1)

unfoldable pub ground_found : String → Option Row → Row → Option (Row × Bool)
unfolding ground_row
ground_found id none row = none
ground_found id (some employee) row = some (ground_row id employee row)

abbrev pub added : Option (Row × Bool) → Grounded → Grounded
added none (kept, excluded, normalized) = (kept, suc excluded, normalized)
added (some (row, changed)) (kept, excluded, normalized) =
    (row ∷ kept, excluded, if changed then suc normalized else normalized)

module _ (host : Host) where
  -- `{str(row["id"]): row for row in employees if row.get("id")}`
  unfoldable pub roster_index : List Row → Index
  unfolding get truthy
  roster_index employees =
      map (λ row. (id_of host row, row)) (keep (λ row. truthy (get "id" row)) employees)

  -- the first of the row's id fields, or else the id of its nested employee
  unfoldable pub employee_id_of : List String → Row → String
  unfolding nested_of get truthy spell spell_or_empty
  employee_id_of [] row = spell_or_empty host.repr (get "id" (nested_of row))
  employee_id_of (k ∷ ks) row =
      let later = employee_id_of ks row in
      if truthy (get k row) then spell host.repr (get k row) else later

  unfoldable pub ground_item : Index → List String → Json → Option (Row × Bool)
  unfolding employee_id_of indexed ground_found
  ground_item index id_fields (object row) =
      let id = employee_id_of id_fields row in ground_found id (indexed id index) row
  ground_item index id_fields _ = none

  unfoldable pub ground_items : Index → List String → List Json → Grounded
  unfolding ground_item
  ground_items index id_fields [] = ([], 0, 0)
  ground_items index id_fields (v ∷ vs) =
      added (ground_item index id_fields v) (ground_items index id_fields vs)

  -- `_ground_employee_rows`
  unfoldable pub ground_employee_rows : Json → List Row → List String → Grounded
  unfolding ground_items roster_index items
  ground_employee_rows (array vs) employees id_fields =
      ground_items (roster_index employees) id_fields (items vs)
  ground_employee_rows _ employees id_fields = ([], 0, 0)
