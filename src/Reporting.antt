-- ===== src/Reporting.antt =====
-- server/okk_mcp/reporting.py: the plan of calls as a report shows it, and the rankings without the plans'
-- history (`_without_plan_history` of server/okk_mcp/backend_client.py).
pub mod Private
use okk_analytics_codex_plug.Common.{
  String, Bool, true, false, not, ◌||◌, Option, none, some, List, [], ◌∷◌, map, keep, any, all,
  if◌then◌else◌,
}
use okk_analytics_codex_plug.Errors.{Result, ok, raised, ◌>>=◌, type_error}
use okk_analytics_codex_plug.Json.{
  Json, boolean, text, array, no_items, object, Row, get, set, truthy, or_else, is_object,
  dict_or_empty, project, pick, dicts_of, items, row_items,
}
use okk_analytics_codex_plug.Json.Equality.{same}
use okk_analytics_codex_plug.Json.Spelling.{spell}
use okk_analytics_codex_plug.Effect.{Host}
use okk_analytics_codex_plug.Analytics.Supervisors.{dict_rows}

abbrev pub plan_item_fields : List String
plan_item_fields =
    "employee_id" ∷ "direction" ∷ "clients" ∷ "counting" ∷ "min_call_duration_seconds" ∷ "plan"
    ∷ "fact" ∷ "fact_state" ∷ "contribution" ∷ []

abbrev pub plan_week_fields : List String
plan_week_fields = "week_start" ∷ "mode" ∷ "min_call_duration_seconds" ∷ "min_duration_differs" ∷ []

-- `safe_plan_item`
unfoldable pub safe_plan_item : Row → Row
unfolding project set get truthy
safe_plan_item item =
    set "changed" (boolean (truthy (get "changes" item))) (project plan_item_fields item)

unfoldable pub week_modes : List Row → List Json
unfolding get truthy
week_modes weeks = keep truthy (map (get "mode") weeks)

-- a value that a set does not take
abbrev pub is_unhashable : Json → Bool
is_unhashable (array vs) = true
is_unhashable (object row) = true
is_unhashable _ = false

unfoldable pub mode_among : List Json → Option Json
unfolding same
mode_among [] = none
mode_among (mode ∷ modes) = if all (same mode) modes then some mode else some (text "mixed")

-- `plan_mode`
unfoldable pub plan_mode : List Row → Result (Option Json)
unfolding week_modes mode_among
plan_mode weeks =
    let modes = week_modes weeks in
    if any is_unhashable modes then raised (type_error "unhashable type") else ok (mode_among modes)

-- the plans of one employee
pub record PlanEmployee : Type 0 where
  pub employee_id : String
  pub full_name : Json
  pub items : List Row

-- the report of `safe_plan_fact`
pub record PlanFact : Type 0 where
  pub mode : Option Json
  pub department_min_call_duration_seconds : Json
  pub weeks : List Row
  pub items : List Row
  pub employees : List PlanEmployee

-- `{**row, "metrics": {**metrics, "plan_items": items}}`
abbrev pub with_plan_items : List Row → Row → Row → Row
unfolding safe_plan_item set
with_plan_items found metrics row =
    set "metrics" (object (set "plan_items" (array (row_items (map safe_plan_item found))) metrics))
      row

abbrev pub without_history_in : Json → Json → Row → Row
unfolding dicts_of items safe_plan_item set
without_history_in (object metrics) (array vs) row =
    with_plan_items (dicts_of (items vs)) metrics row
without_history_in _ _ row = row

-- `_without_plan_history`
unfoldable pub without_plan_history : Row → Row
unfolding get dict_or_empty without_history_in
without_plan_history row =
    without_history_in (get "metrics" row) (get "plan_items" (dict_or_empty (get "metrics" row)))
      row

module _ (host : Host) where
  -- `[row for row in value or [] if isinstance(row, dict)]`
  unfoldable pub rows_of : Json → Result (List Row)
  unfolding dict_rows truthy
  rows_of v = dict_rows host (or_else v (array no_items))

  unfoldable pub plan_employee : Row → Result PlanEmployee
  unfolding rows_of safe_plan_item get spell
  plan_employee entry = rows_of (get "items" entry) >>= λ found. ok (record {
    employee_id = spell host.repr (get "employee_id" entry);
    full_name = get "full_name" entry;
    items = map safe_plan_item found;
  })

  unfoldable pub plan_employees : List Row → Result (List PlanEmployee)
  unfolding plan_employee
  plan_employees [] = ok []
  plan_employees (entry ∷ entries) =
      plan_employee entry >>= λ shown. plan_employees entries >>= λ rest. ok (shown ∷ rest)

  -- `safe_plan_fact`
  unfoldable pub safe_plan_fact : Row → Result PlanFact
  unfolding plan_mode plan_employees rows_of safe_plan_item pick get truthy
  safe_plan_fact report = rows_of (get "weeks" report) >>= λ found.
      plan_mode (map (pick plan_week_fields) found) >>= λ mode.
      rows_of (get "items" report) >>= λ items. rows_of (get "employees" report) >>= λ entries.
      plan_employees (keep (λ entry. truthy (get "employee_id" entry)) entries) >>= λ employees.
      ok (record {
        mode = mode;
        department_min_call_duration_seconds = get "department_min_call_duration_seconds" report;
        weeks = map (pick plan_week_fields) found;
        items = map safe_plan_item items;
        employees = employees;
      })
