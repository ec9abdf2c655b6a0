-- ===== src/Tests/Analytics/Grounding.antt =====
-- Rows that name employees, at a concrete input.
use okk_analytics_codex_plug.Common.{◌≡◌, refl, List, [], ◌∷◌}
use okk_analytics_codex_plug.Json.{
  Items, text, array, object, Row, no_fields, field, no_items, item, get, lookup, has, set, truthy,
  dict_or_empty, items,
}
use okk_analytics_codex_plug.Json.Equality.{same}
use okk_analytics_codex_plug.Json.Spelling.{spell, spell_or_empty}
use okk_analytics_codex_plug.Analytics.Journal.{text_at}
use okk_analytics_codex_plug.Analytics.Employees.{indexed}
use okk_analytics_codex_plug.Analytics.Grounding.{
  Grounded, renamed, nested_of, corrected, with_nested, ground_row, ground_found, roster_index,
  employee_id_of, ground_item, ground_items, ground_employee_rows,
}
use okk_analytics_codex_plug.Tests.Setup.{host}
use okk_analytics_codex_plug.Tests.Analytics.Directory.{person, stranger}

-- a row with another name for the employee, and one of an unknown employee
abbrev rows : Items
rows = item (object (field "employee_id" (text "e1") (field "full_name" (text "Anya") no_fields))) (
    item (object (field "employee_id" (text "e9") (field "full_name" (text "Vera") no_fields)))
      no_items)

abbrev directory : List Row
directory = person ∷ (stranger ∷ [])

abbrev grounded : Grounded
grounded = (field "employee_id" (text "e1") (field "full_name" (text "Anna") no_fields) ∷ [], 1, 1)

run : ground_employee_rows host (array rows) directory ("employee_id" ∷ []) ≡ grounded
unfolding ground_employee_rows ground_items ground_item ground_found ground_row renamed nested_of
    corrected with_nested roster_index employee_id_of indexed same get lookup has set truthy
    dict_or_empty items spell spell_or_empty text_at
run = refl
