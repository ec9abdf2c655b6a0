-- ===== src/Analytics/Calls/Visible.antt =====
-- `_visible_call` of server/okk_mcp/backend_client.py: the second check of the account's access to a call.
use okk_analytics_codex_plug.Common.{
  ℕ, String, Bool, not, ◌&&◌, ◌||◌, Option, none, some, List, [], ◌∷◌, nonempty, str_eq, is_some,
  find_first, if◌then◌else◌,
}
use okk_analytics_codex_plug.Json.{
  Json, null, text, object, Row, no_fields, field, get, set, truthy, dict_or_empty, pick,
}
use okk_analytics_codex_plug.Json.Spelling.{spell, spell_or_empty}
use okk_analytics_codex_plug.Effect.{Host, pure, gets, modify, ◌>>=◌, ◌>>◌}
use okk_analytics_codex_plug.Oauth.Types.{Settings, given, value}
use okk_analytics_codex_plug.Analytics.Adapter.{Call, is_admin, context}
use okk_analytics_codex_plug.Analytics.Journal.{id_of}
use okk_analytics_codex_plug.Analytics.Departments.{departments}
use okk_analytics_codex_plug.Analytics.Supervisors.{restricted_supervisor}
use okk_analytics_codex_plug.Analytics.Employees.{indexed}
use okk_analytics_codex_plug.Analytics.Directory.{employee, visible_departments}
use okk_analytics_codex_plug.Analytics.Calls.{safe_call, safe_supervisor_call, filled, optional_id}

-- the employees of calls that were looked up, newest first
abbrev pub Lookups : Type 0
Lookups = List (String × Option Row)

abbrev pub looked_up : String → Lookups → Option (Option Row)
looked_up id [] = none
looked_up id ((j, row) ∷ rest) = if str_eq id j then some row else looked_up id rest

-- an id and a filter that is given and is not the id
abbrev pub differs : String → Option String → Bool
differs id wanted = given wanted && not (str_eq id (value wanted))

-- `{"id": ..., "full_name": ..., "department": ...}`
unfoldable pub placed_employee : String → Json → Json → Json
placed_employee id full_name department =
    object
      (field "id" (text id) (field "full_name" full_name (field "department" department no_fields)))

unfoldable pub department_card : Option Row → Json
unfolding pick
department_card none = null
department_card (some row) = object (pick ("id" ∷ "name" ∷ "code" ∷ []) row)

module _ (host : Host) where
  -- `safe["employee"] or {}`
  unfoldable pub nested_employee : Row → Row
  unfolding safe_call get dict_or_empty
  nested_employee row = dict_or_empty (get "employee" (safe_call host row))

  -- the department that the call's own employee names; empty where it names none
  unfoldable pub nested_department_id : Row → String
  unfolding nested_employee get dict_or_empty spell_or_empty
  nested_department_id row =
      spell_or_empty host.repr (get "id" (dict_or_empty (get "department" (nested_employee row))))

  -- a nested employee who is not the call's
  unfoldable pub is_mismatched : String → Row → Bool
  unfolding nested_employee get truthy spell
  is_mismatched id row =
      truthy (get "id" (nested_employee row))
      && not (str_eq (spell host.repr (get "id" (nested_employee row))) id)

  module _ (settings : Settings) (session_id : ℕ) where
    -- the last checks: the department that was asked for, and the departments of the account
    unfoldable pub checked_call : Option String → String → Row → Call (Option Row)
    unfolding is_admin
    checked_call department_id own safe = if differs own department_id then pure none else (do
      c ← context host session_id
      if is_admin c then pure (some safe) else (do
        visible ← visible_departments host settings session_id
        pure (if is_some (indexed own visible) then some safe else none)))

    -- the call card names the department
    unfoldable pub by_card : Option String → String → Row → Call (Option Row)
    unfolding checked_call placed_employee department_card get set spell nested_employee
    by_card department_id id row = do
      rows ← departments host session_id
      let own = spell host.repr (get "department_id" row)
      let department = filled (find_first (λ d. str_eq (id_of host d) own) rows)
      let shown =
          placed_employee id (get "full_name" (nested_employee row)) (department_card department)
      checked_call department_id own (set "employee" shown (safe_call host row))

    unfoldable pub remembered_employee : String → Option (Option Row) → Call (Option Row)
    remembered_employee id (some found) = pure found
    remembered_employee id none = do
      found ← employee host settings session_id id
      modify (λ s. record s { call_employees = (id, found) ∷ s.call_employees })
      pure found

    unfoldable pub by_employee : Option String → String → Row → Option Row → Call (Option Row)
    unfolding checked_call placed_employee get set spell
    by_employee department_id id row none = pure none
    by_employee department_id id row (some e) =
        let shown = placed_employee id (get "full_name" e) (get "department" e) in
        checked_call department_id (spell host.repr (get "department_id" e))
          (set "employee" shown (safe_call host row))

    -- an older card, whose employee the directory places
    unfoldable pub by_directory : Option String → String → Row → Call (Option Row)
    unfolding remembered_employee by_employee
    by_directory department_id id row = do
      known ← gets (λ s. looked_up id s.call_employees)
      found ← remembered_employee id known
      by_employee department_id id row found

    unfoldable pub by_department : Option String → String → Row → Call (Option Row)
    unfolding by_card by_directory get truthy
    by_department department_id id row =
        if truthy (get "department_id" row)
        then by_card department_id id row
        else by_directory department_id id row

    -- a supervisor of the private catalog has no department; a filter of one excludes the call
    unfoldable pub by_supervisor : Option String → String → Row → Option Row → Call (Option Row)
    unfolding by_department safe_supervisor_call
    by_supervisor department_id id row none = by_department department_id id row
    by_supervisor department_id id row (some s) =
        if given department_id
        then by_department department_id id row
        else pure (some (safe_supervisor_call host row s))

    -- `_visible_call`
    unfoldable pub visible_call : Row → Option String → Option String → Call (Option Row)
    unfolding optional_id is_mismatched nested_department_id checked_call by_supervisor safe_call
    visible_call row department_id employee_id =
        let id = value (optional_id host "employee_id" row) in
        if not (nonempty id) || differs id employee_id || is_mismatched id row
        then pure none
        else if nonempty (nested_department_id row)
        then checked_call department_id (nested_department_id row) (safe_call host row)
        else (do
          supervisor ← restricted_supervisor host session_id id
          by_supervisor department_id id row supervisor)
