-- ===== src/Analytics/Departments.antt =====
-- The departments and the restricted supervisors that the account sees, and how a tool's department
-- selector finds one (server/okk_mcp/backend_client.py).
use okk_analytics_codex_plug.Common.{
  ℕ, String, Bool, true, false, not, ◌&&◌, Option, none, some, List, [], ◌∷◌, map, keep, any,
  length, nonempty, ◌==◌, str_eq, contains, sorted_set, strip, if◌then◌else◌,
}
use okk_analytics_codex_plug.Json.{
  Json, null, text, Row, no_fields, field, get, is_null, project, as_rows,
}
use okk_analytics_codex_plug.Json.Spelling.{spell}
use okk_analytics_codex_plug.Effect.{Host, pure, lift, gets, modify, ◌>>=◌, ◌>>◌}
use okk_analytics_codex_plug.Platform.Context.{AccountContext}
use okk_analytics_codex_plug.Analytics.Adapter.{Call, is_admin, context, get_json}
use okk_analytics_codex_plug.Analytics.Journal.{id_of}
use okk_analytics_codex_plug.Analytics.Texts.{selector_key, department_selector_keys}

abbrev pub department_keys : List String
department_keys =
    "id" ∷ "name" ∷ "code" ∷ "description" ∷ "is_active" ∷ "min_call_duration" ∷ "quality_threshold"
    ∷ "passing_score" ∷ "client_status_tracked" ∷ "client_touch_tracked" ∷ "created_at"
    ∷ "updated_at" ∷ []

-- `_safe_department`
unfoldable pub safe_department : Row → Row
unfolding project
safe_department row = project department_keys row

-- `department_scope`
unfoldable pub department_scope : (Json → String) → Option Row → Row
unfolding get spell
department_scope repr none =
    field "department_id" null
      (field "department_code" null (field "department_name" null no_fields))
department_scope repr (some row) =
    field "department_id" (text (spell repr (get "id" row))) (
      field "department_code" (get "code" row) (field "department_name" (get "name" row) no_fields))

-- the selectors that are given
abbrev pub given_selectors : Json → Json → List Json
given_selectors department_id department_ref =
    keep (λ v. not (is_null v)) (department_id ∷ department_ref ∷ [])

abbrev pub only : List Row → Option Row
only (row ∷ []) = some row
only _ = none

-- `rows or other`
abbrev pub rows_or : List Row → List Row → List Row
rows_or [] other = other
rows_or (row ∷ rows) other = row ∷ rows

abbrev pub and_then : Option Row → Option (List Row) → Option (List Row)
and_then (some row) (some rows) = some (row ∷ rows)
and_then _ _ = none

module _ (host : Host) where
  -- the departments of OKK that the account may see
  unfoldable pub allowed_departments : AccountContext → List Row → List Row
  unfolding is_admin
  allowed_departments c rows =
      if is_admin c then rows else keep (λ row. contains (id_of host row) c.department_ids) rows

  -- the departments with the selector as id, and those with it as a key of their name or code
  unfoldable pub by_id : Json → List Row → List Row
  unfolding spell strip
  by_id selector rows =
      keep (λ row. str_eq (id_of host row) (strip (spell host.repr selector))) rows

  unfoldable pub by_key : Json → List Row → List Row
  unfolding selector_key department_selector_keys spell strip
  by_key selector rows =
      let key = selector_key host (strip (spell host.repr selector)) in
      keep (λ row. nonempty key && contains key (department_selector_keys host row)) rows

  -- the departments that one selector names
  unfoldable pub matches : Json → List Row → List Row
  unfolding by_id by_key
  matches selector rows = rows_or (by_id selector rows) (by_key selector rows)

  -- each selector's only department; nothing where one names none or several
  unfoldable pub resolved : List Json → List Row → Option (List Row)
  unfolding matches
  resolved [] rows = some []
  resolved (v ∷ vs) rows = and_then (only (matches v rows)) (resolved vs rows)

  -- the department that all selectors name
  unfoldable pub agreed : Option (List Row) → Option Row
  agreed none = none
  agreed (some []) = none
  agreed (some (row ∷ rest)) =
      let same = length (sorted_set (map (id_of host) (row ∷ rest))) == 1 in
      if same then some row else none

  module _ (session_id : ℕ) where
    -- OKK is not asked for an account without a department.
    unfoldable pub loaded : AccountContext → Call (List Row)
    unfolding allowed_departments
    loaded c = if not (is_admin c) && not (any (λ d. true) c.department_ids) then pure [] else (do
      payload ← get_json host session_id "/departments" no_fields
      rows ← lift (as_rows payload)
      pure (map safe_department (allowed_departments c rows)))

    abbrev pub catalog : Option (List Row) → Call (List Row)
    catalog (some rows) = pure rows
    catalog none = do
      c ← context host session_id
      rows ← loaded c
      modify (λ s. record s { departments = some rows })
      pure rows

    -- `departments`
    unfoldable pub departments : Call (List Row)
    departments = do known ← gets (λ s. s.departments); catalog known

    -- `resolve_department`: the department, and whether a selector was given
    unfoldable pub resolve_department : Json → Json → Call (Option Row × Bool)
    unfolding departments resolved agreed
    resolve_department department_id department_ref =
        let selectors = given_selectors department_id department_ref in
        if any (λ v. true) selectors
        then (do rows ← departments; pure (agreed (resolved selectors rows), true))
        else pure (none, false)
