-- ===== src/Analytics/Directory.antt =====
-- The employee directory that the account sees: `employees`, `employee`, `scoped_employee` and
-- `resolve_entity_scope` of server/okk_mcp/backend_client.py.
use okk_analytics_codex_plug.Common.{
  ℕ, zero, suc, String, Bool, true, false, not, ◌&&◌, ◌||◌, Option, none, some, List, [], any, take,
  length, ltb, leb, ◌==◌, str_eq, is_some, find_first, if◌then◌else◌,
}
use Prim.Native.String
use okk_analytics_codex_plug.Errors
use okk_analytics_codex_plug.Errors.{Exc, Result, ok, raised, is_not_available, timeout_error}
use okk_analytics_codex_plug.Json.{
  Json, null, boolean, number, array, no_items, object, Row, no_fields, field, get, truthy, or_else,
  as_dict, as_rows, opt_text,
}
use okk_analytics_codex_plug.Json.Spelling.{spell, spell_or_empty}
use okk_analytics_codex_plug.Effect.{Host, pure, lift, ◌>>=◌, raise, settle}
use okk_analytics_codex_plug.Oauth.Types.{Settings, given, value}
use okk_analytics_codex_plug.Analytics.Adapter.{Call, is_admin, context, get_json}
use okk_analytics_codex_plug.Analytics.Journal.{id_of, to_int, Page}
use okk_analytics_codex_plug.Analytics.Departments.{departments, resolve_department}
use okk_analytics_codex_plug.Analytics.Employees.{
  Index, indexed_by, index_rows, text_of, is_name, same_text, placed, department_id_of, Roster,
  collect,
}

-- the truth of an optional dict
unfoldable pub present : Option Row → Bool
unfolding truthy
present none = false
present (some row) = truthy (object row)

abbrev row_or_empty : Option Row → Row
row_or_empty none = no_fields
row_or_empty (some row) = row

-- the employees, whether they are all, how many OKK has, and how many were left out
abbrev pub Employees : Type 0
Employees = List Row × Bool × ℕ × ℕ

-- `total or len(rows)`
abbrev pub or_length : ℕ → List Row → ℕ
or_length total rows = if total == 0 then length rows else total

module _ (host : Host) where
  -- a page of the directory
  unfoldable pub listing_of : Json → Result Page
  unfolding to_int get truthy as_dict as_rows
  listing_of payload = Errors.◌>>=◌ (as_dict payload) λ answer.
      Errors.◌>>=◌ (to_int host (or_else (get "total" answer) (number 0))) λ total.
        Errors.◌>>=◌ (as_rows (or_else (get "items" answer) (array no_items))) λ found.
          Errors.◌>>=◌ (to_int host (or_else (get "pages" answer) (number 1)))
            λ pages. ok (record { total = total; pages = pages; rows = found })

  module _ (settings : Settings) (session_id : ℕ) where
    -- `{str(row["id"]): row for row in await self.departments()}`
    unfoldable pub visible_departments : Call Index
    unfolding departments
    visible_departments = do rows ← departments host session_id; lift (index_rows host rows)

    abbrev pub employee_query : Option String → Option String → Bool → ℕ → Row
    employee_query department_id search include_inactive page =
        field "department_id" (opt_text department_id) (
          field "search" (opt_text search) (
            field "is_active" (if include_inactive then null else boolean true)
              (field "page" (number page) (field "page_size" (number 100) no_fields))))

    module _ (visible : Index) (department_id search : Option String)
        (include_inactive : Bool) where
      unfoldable pub read_directory : ℕ → Call Page
      unfolding listing_of
      read_directory page = do
        payload ←
            get_json host session_id "/employees"
              (employee_query department_id search include_inactive page)
        lift (listing_of payload)

      -- One page of the directory for each unit of fuel. Without fuel the time budget of the tool call
      -- is spent.
      unfoldable pub employee_loop : ℕ → ℕ → ℕ → Roster → Call Employees
      unfolding read_directory collect
      employee_loop zero page total r = raise (timeout_error "time budget")
      employee_loop (suc fuel) page total r =
          let most = settings.analytics_max_employees in
          if leb most (length r.rows)
          then pure (take most r.rows, false, or_length total r.rows, r.excluded)
          else (read_directory page >>= λ p.
              let grown : Roster = collect host visible department_id p.rows r in
              let next = employee_loop fuel (suc page) p.total grown in
              if leb most (length grown.rows) && (ltb page p.pages || ltb most (length grown.rows))
              then pure (take most grown.rows, false, or_length p.total grown.rows, grown.excluded)
              else if leb p.pages page
              then pure (grown.rows, true, or_length p.total grown.rows, grown.excluded)
              else next)

    -- `employees`
    unfoldable pub employees : ℕ → Option String → Option String → Bool → Call Employees
    unfolding visible_departments employee_loop is_admin
    employees fuel department_id search include_inactive = do
      visible ← visible_departments
      if given department_id && not (is_some (indexed_by department_id visible))
          then pure ([], false, 0, 0)
          else (do
            c ← context host session_id
            if not (is_admin c) && not (any (λ d. true) c.department_ids)
                then pure ([], true, 0, 0)
                else employee_loop visible department_id search include_inactive fuel 1 0
                    (record { rows = []; seen = []; excluded = 0 }))

    -- the answer is about the employee asked for, who has a name
    unfoldable pub is_answer : String → Row → Bool
    unfolding get truthy is_name
    is_answer employee_id raw =
        truthy (get "id" raw)
        && str_eq (id_of host raw) employee_id
        && is_name (get "full_name" raw)

    -- the employee, if the account sees the department
    unfoldable pub visible_employee : Index → Row → Option Row
    visible_employee visible raw =
        placed host false raw (indexed_by (department_id_of host raw) visible)

    unfoldable pub employee_answer : String → Result Json → Call (Option Row)
    unfolding visible_departments visible_employee is_answer as_dict is_not_available
    employee_answer employee_id (raised e) = if is_not_available e then pure none else raise e
    employee_answer employee_id (ok payload) = do
      raw ← lift (as_dict payload)
      if is_answer employee_id raw
          then (do visible ← visible_departments; pure (visible_employee visible raw))
          else pure none

    -- `employee`
    unfoldable pub employee : String → Call (Option Row)
    unfolding employee_answer
    employee employee_id =
        settle (get_json host session_id (String.◌++◌ "/employees/" employee_id) no_fields)
          (employee_answer employee_id)

    -- the employee's department is the one asked for, if one is
    unfoldable pub in_department : Option Row → Row → Bool
    unfolding get
    in_department department row =
        not (present department)
        || same_text (text_of (get "department_id" row))
            (some (id_of host (row_or_empty department)))

    -- `scoped_employee`
    unfoldable pub scoped_employee : Option String → Option Row → Call (Option Row)
    unfolding employee in_department
    scoped_employee employee_id department = if not (given employee_id) then pure none else (do
      row ← employee (value employee_id)
      pure
          (elim row [ none ↦ none | some r ↦ if in_department department r then some r else none ]))

    abbrev pub of_employee : Row → Option Row → Option Row × Option Row × Bool
    of_employee e none = (none, none, true)
    of_employee e (some department) = (some department, some e, false)

    -- the scope of an employee, whose own department stands in for one that was not asked for
    unfoldable pub with_employee : Option Row → Option Row → Call (Option Row × Option Row × Bool)
    unfolding spell_or_empty get
    with_employee department none = pure (department, none, true)
    with_employee (some department) (some e) = pure (some department, some e, false)
    with_employee none (some e) = do
      rows ← departments host session_id
      let id = spell_or_empty host.repr (get "department_id" e)
      pure (of_employee e (find_first (λ row. str_eq (id_of host row) id) rows))

    -- `resolve_entity_scope`: the department, the employee, and whether the scope is not available
    unfoldable pub resolve_entity_scope : Json → Json → Json → Call (Option Row × Option Row × Bool)
    unfolding resolve_department scoped_employee with_employee truthy get spell
    resolve_entity_scope department_id department_ref employee_id = do
      found ← resolve_department host session_id department_id department_ref
      if found.1 && not (present found.0)
          then pure (none, none, true)
          else if not (truthy employee_id)
          then pure (found.0, none, false)
          else (do
            row ← scoped_employee (some (spell host.repr employee_id)) found.0
            with_employee found.0 row)
