-- ===== src/Analytics/Calls.antt =====
-- The calls that a tool shows: `_safe_call` and `_safe_supervisor_call` of
-- server/okk_mcp/backend_client.py.
pub mod Visible
pub mod Shown
pub mod Checked
use okk_analytics_codex_plug.Common.{
  ℕ, String, Bool, true, false, not, ◌&&◌, ◌||◌, Option, none, some, List, [], ◌∷◌, nonempty,
  str_eq, contains, is_some, map, find_first, if◌then◌else◌,
}
use okk_analytics_codex_plug.Errors.{Result, ok, raised, key_error}
use okk_analytics_codex_plug.Json.{
  Json, null, text, object, Row, no_fields, field, get, has, set, truthy, is_object, dict_or_empty,
  project, merge, pick, opt_text,
}
use okk_analytics_codex_plug.Json.Spelling.{spell, spell_or_empty}
use okk_analytics_codex_plug.Effect.{Host, pure, lift, gets, modify, ◌>>=◌, ◌>>◌}
use okk_analytics_codex_plug.Oauth.Types.{Settings, given, value}
use okk_analytics_codex_plug.Analytics.Adapter.{Call, AdapterState, is_admin, context}
use okk_analytics_codex_plug.Analytics.Journal.{id_of}
use okk_analytics_codex_plug.Analytics.Texts.{spoken}
use okk_analytics_codex_plug.Analytics.Departments.{departments}
use okk_analytics_codex_plug.Analytics.Supervisors.{restricted_supervisor}
use okk_analytics_codex_plug.Analytics.Employees.{Index, index_rows}
use okk_analytics_codex_plug.Analytics.Directory.{employee, visible_departments}

abbrev optional_call_keys : List String
optional_call_keys =
    "quality_status" ∷ "quality_threshold" ∷ "client_status" ∷ "client_category" ∷ "skip_reason"
    ∷ "is_manual_excluded" ∷ "is_phone_excluded" ∷ "new_client_touch_status"
    ∷ "new_client_touch_reason" ∷ "new_client_touch_idle_days" ∷ "unanswered"
    ∷ "missed_follow_up_minutes" ∷ []

abbrev plain_call_keys : List String
plain_call_keys =
    "direction" ∷ "started_at" ∷ "ended_at" ∷ "duration" ∷ "quality_score" ∷ "processing_status"
    ∷ "conversation_status" ∷ "call_status" ∷ "manual_tag" ∷ []

-- the value of a key where it is a dict
unfoldable pub dict_at : String → Row → Option Row
unfolding get is_object dict_or_empty
dict_at k row = if is_object (get k row) then some (dict_or_empty (get k row)) else none

-- a dict that is given and not empty
abbrev pub filled : Option Row → Option Row
unfolding truthy
filled none = none
filled (some row) = if truthy (object row) then some row else none

module _ (host : Host) where
  -- `str(row.get(k)) if row.get(k) else None`
  unfoldable pub optional_id : String → Row → Option String
  unfolding get truthy spell
  optional_id k row = if truthy (get k row) then some (spell host.repr (get k row)) else none

  -- id, name and code of a nested dict
  abbrev pub id_card : List String → Option Row → Json
  unfolding pick
  id_card names none = null
  id_card names (some row) = object (field "id" (text (id_of host row)) (pick names row))

  -- `employee` of a shown call
  unfoldable pub employee_card : Option Row → Json
  unfolding dict_at get truthy pick
  employee_card none = null
  employee_card (some row) = object (
      field "id" (text (id_of host row)) (
        field "full_name" (get "full_name" row) (
          field "department" (id_card ("name" ∷ "code" ∷ []) (filled (dict_at "department" row)))
            no_fields)))

  -- `_safe_call`
  unfoldable pub safe_call : Row → Row
  unfolding optional_id employee_card dict_at get spoken project merge pick truthy
  safe_call row =
      let employee = filled (dict_at "employee" row) in
      field "id" (text (id_of host row)) (
        field "employee_id" (opt_text (optional_id "employee_id" row)) (
          field "scenario_id" (opt_text (optional_id "scenario_id" row)) (
            field "detected_scenario_code" (get "detected_scenario_code" row) (
              merge (pick plain_call_keys row) (
                field "call_summary" (spoken host (get "call_summary" row)) (
                  merge (project optional_call_keys row) (
                    field "employee" (employee_card employee) (
                      field "client" (id_card ("name" ∷ []) (filled (dict_at "client" row))) (
                        field "scenario"
                          (id_card ("name" ∷ "code" ∷ []) (filled (dict_at "scenario" row)))
                          no_fields)))))))))

  -- `_safe_supervisor_call`; the supervisor is a row of `_safe_restricted_supervisor`, which has an id
  unfoldable pub safe_supervisor_call : Row → Row → Row
  unfolding optional_id get
  safe_supervisor_call row supervisor = field "id" (text (id_of host row)) (
      field "employee_id" (opt_text (optional_id "employee_id" row)) (
        field "direction" (get "direction" row) (
          field "started_at" (get "started_at" row) (
            field "ended_at" (get "ended_at" row) (
              field "duration" (get "duration" row) (
                field "call_status" (get "call_status" row) (
                  field "employee"
                    (object (
                      field "id" (get "id" supervisor) (
                        field "full_name" (get "full_name" supervisor) (
                          field "position" (get "position" supervisor)
                            (field "section" (text "supervisors") no_fields)))))
                    no_fields)))))))
