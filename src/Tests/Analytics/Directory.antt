-- ===== src/Tests/Analytics/Directory.antt =====
-- The employee directory at a concrete input.
use okk_analytics_codex_plug.Common.{
  ◌≡◌, refl, none, [], ◌∷◌, true, false, contains, strip, drop_front, drop_end, is_space,
}
use okk_analytics_codex_plug.Errors.{ok}
use okk_analytics_codex_plug.Effect.{Host}
use okk_analytics_codex_plug.Json.{
  text, Row, no_fields, field, get, lookup, set, has, truthy, is_object, dict_or_empty, as_dict,
  as_rows, as_dicts, items, row_items,
}
use okk_analytics_codex_plug.Json.Spelling.{spell}
use okk_analytics_codex_plug.Platform.Account.{responded}
use okk_analytics_codex_plug.Platform.Reads.{
  validate_read_path, current_access, renewed_for, send_read, send_attempts, is_transient,
  transient_status, is_unauthorized, read_once_renewed, read_body, get_with_context,
}
use okk_analytics_codex_plug.Analytics.Adapter.{is_admin, context, query_pairs, query_of, get_json}
use okk_analytics_codex_plug.Analytics.Journal.{text_at, to_int}
use okk_analytics_codex_plug.Analytics.Departments.{departments}
use okk_analytics_codex_plug.Analytics.Guarded.{IsScoped}
use okk_analytics_codex_plug.Analytics.Employees.{
  indexed, index_rows, is_name, nested_department, department_id_of, safe_employee,
  shown_department, with_department, unfit, admitted, collect,
}
use okk_analytics_codex_plug.Analytics.Directory.{
  Employees, listing_of, read_directory, visible_departments, employee_loop, employees,
}
use okk_analytics_codex_plug.Analytics.Rosters.Loop.{IsDirectory, employees-IsDirectory}
use okk_analytics_codex_plug.Tests.Setup.{host, settings}
use okk_analytics_codex_plug.Tests.Analytics.{paged, department, member, ready}

abbrev pub person : Row
person =
    field "id" (text "e1")
      (field "full_name" (text "Anna") (field "department_id" (text "d1") no_fields))

-- an employee of another department
abbrev pub stranger : Row
stranger =
    field "id" (text "e2")
      (field "full_name" (text "Boris") (field "department_id" (text "d2") no_fields))

abbrev directory : Host
directory = record host { loads = λ s. paged 2 1 (person ∷ (stranger ∷ [])) }

scoped : IsScoped directory member ready
unfolding contains text_at get lookup spell is_admin
scoped = (refl, (λ n. refl, tt))

abbrev shown : Employees
unfolding with_department
shown = (with_department directory person department ∷ [], true, 2, 1)

listed : (employees directory settings 7 2 none none false ready).0 ≡ ok shown
unfolding employees visible_departments departments index_rows indexed has context employee_loop
    read_directory listing_of get_json get_with_context validate_read_path read_once_renewed
    current_access renewed_for send_read send_attempts is_transient transient_status is_unauthorized
    responded read_body query_of query_pairs as_dict as_rows as_dicts items row_items to_int get
    lookup truthy collect admitted unfit is_name strip drop_front drop_end is_space department_id_of
    with_department safe_employee nested_department shown_department set is_object dict_or_empty
    spell text_at contains is_admin
listed = refl

employees-IsDirectory_example : IsDirectory directory member none 2000 shown
unfolding with_department
employees-IsDirectory_example =
    employees-IsDirectory directory member settings 7 2 none none false ready shown scoped listed
