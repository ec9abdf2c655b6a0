-- ===== src/Tests/Reporting.antt =====
-- The report of a plan at a concrete input.
use okk_analytics_codex_plug.Common.{◌≡◌, refl, some, true, [], ◌∷◌}
use okk_analytics_codex_plug.Errors.{ok}
use okk_analytics_codex_plug.Json.{
  null, number, boolean, text, array, Row, no_fields, field, row_items, text_items, get, lookup,
  has, set, truthy, project, pick, items, dicts_of,
}
use okk_analytics_codex_plug.Json.Equality.{same}
use okk_analytics_codex_plug.Json.Spelling.{spell}
use okk_analytics_codex_plug.Analytics.Supervisors.{dict_rows}
use okk_analytics_codex_plug.Reporting.{
  PlanFact, safe_plan_item, week_modes, mode_among, plan_mode, rows_of, plan_employee,
  plan_employees, safe_plan_fact,
}
use okk_analytics_codex_plug.Reporting.Private.{IsPlanReport, safe_plan_fact-IsPlanReport}
use okk_analytics_codex_plug.Tests.Setup.{host}

-- a plan item that Anna changed
abbrev edited : Row
edited = field "direction" (text "outbound") (
    field "plan" (number 20)
      (field "changes" (array (text_items ("Anna: 10 to 20" ∷ []))) no_fields))

abbrev shown_item : Row
shown_item =
    field "direction" (text "outbound")
      (field "plan" (number 20) (field "changed" (boolean true) no_fields))

abbrev week : Row
week = field "week_start" (text "2026-11-23") (field "mode" (text "department") no_fields)

abbrev report : Row
report = field "weeks" (array (row_items (week ∷ []))) (
    field "items" (array (row_items (edited ∷ []))) (
      field "employees"
        (array (
          row_items (
            field "employee_id" (text "e1")
              (field "items" (array (row_items (edited ∷ []))) no_fields)
            ∷ [])))
        no_fields))

abbrev shown : PlanFact
unfolding pick get
shown = record {
  mode = some (text "department");
  department_min_call_duration_seconds = null;
  weeks =
      field "week_start" (text "2026-11-23") (
        field "mode" (text "department")
          (field "min_call_duration_seconds" null (field "min_duration_differs" null no_fields)))
      ∷ [];
  items = shown_item ∷ [];
  employees = record { employee_id = "e1"; full_name = null; items = shown_item ∷ [] } ∷ [];
}

run : safe_plan_fact host report ≡ ok shown
unfolding safe_plan_fact plan_mode week_modes mode_among rows_of plan_employees plan_employee
    dict_rows dicts_of items safe_plan_item project pick get lookup has set truthy same spell
    row_items
run = refl

safe_plan_fact-IsPlanReport_example : IsPlanReport host report shown
safe_plan_fact-IsPlanReport_example = safe_plan_fact-IsPlanReport host report shown run
