-- ===== src/Analytics/Employees.antt =====
-- The employee rows of OKK and those that the account is shown: `_safe_employee` and the checks of
-- `employees` in server/okk_mcp/backend_client.py.
use okk_analytics_codex_plug.Common.{
  ℕ, suc, String, Bool, true, false, not, ◌&&◌, ◌||◌, Option, none, some, List, [], ◌∷◌, ◌++◌,
  nonempty, str_eq, contains, strip, if◌then◌else◌,
}
use okk_analytics_codex_plug.Errors
use okk_analytics_codex_plug.Errors.{
  Exc, Result, ok, raised, not_available, key_error, timeout_error,
}
use okk_analytics_codex_plug.Json.{
  Json, null, text, boolean, object, Row, no_fields, field, get, get_or, has, set, truthy, or_else,
  opt_text, dict_or_empty, is_object,
}
use okk_analytics_codex_plug.Json.Spelling.{spell}
use okk_analytics_codex_plug.Effect.{Host}
use okk_analytics_codex_plug.Oauth.Types.{given, value}
use okk_analytics_codex_plug.Analytics.Journal.{id_of}

-- `{str(row["id"]): row for row in rows}`, in the order of the rows; a later one replaces an earlier one
abbrev pub Index : Type 0
Index = List (String × Row)

abbrev pub last_of : Option Row → Bool → Row → Option Row
last_of (some later) same row = some later
last_of none same row = if same then some row else none

-- the last row of an id
unfoldable pub indexed : String → Index → Option Row
indexed id [] = none
indexed id ((j, row) ∷ rest) = last_of (indexed id rest) (str_eq id j) row

-- the text of a value that may be `None`
abbrev pub text_of : Json → Option String
text_of (text s) = some s
text_of _ = none

abbrev pub indexed_by : Option String → Index → Option Row
unfolding indexed
indexed_by none index = none
indexed_by (some id) index = indexed id index

-- a text with something in it besides spaces
unfoldable pub is_name : Json → Bool
unfolding strip
is_name (text s) = nonempty (strip s)
is_name _ = false

-- `a != b` of an id and a filter that is given
abbrev pub same_text : Option String → Option String → Bool
same_text (some a) (some b) = str_eq a b
same_text _ _ = false

-- the department that an employee is shown under
unfoldable pub shown_department : String → Row → Row
unfolding get
shown_department id row =
    field "id" (text id) (field "name" (get "name" row) (field "code" (get "code" row) no_fields))

-- the rows so far, the ids that were seen, and the number of items left out
pub record Roster : Type 0 where
  pub rows : List Row
  pub seen : List String
  pub excluded : ℕ

module _ (host : Host) where
  -- `{str(row["id"]): row for row in rows}`
  unfoldable pub index_rows : List Row → Result Index
  unfolding has
  index_rows [] = ok []
  index_rows (row ∷ rows) =
      if has "id" row
      then Errors.◌>>=◌ (index_rows rows) (λ rest. ok ((id_of host row, row) ∷ rest))
      else raised (key_error "id")

  -- `department` of an employee row, as far as it is a dict
  unfoldable pub nested_department : Row → Json
  unfolding get spell is_object dict_or_empty
  nested_department row =
      let department = get "department" row in
      let d = dict_or_empty department in
      if is_object department
      then object (
          field "id" (text (id_of host d))
            (field "name" (get "name" d) (field "code" (get "code" d) no_fields)))
      else null

  -- `row.get("department_id") or department.get("id")`
  unfoldable pub department_id_of : Row → Option String
  unfolding get truthy spell dict_or_empty
  department_id_of row =
      let v = or_else (get "department_id" row) (get "id" (dict_or_empty (get "department" row))) in
      if truthy v then some (spell host.repr v) else none

  -- `_safe_employee`
  unfoldable pub safe_employee : Row → Row
  unfolding get truthy nested_department department_id_of
  safe_employee row = field "id" (text (id_of host row)) (
      field "full_name" (get "full_name" row) (
        field "department_id" (opt_text (department_id_of row)) (
          field "department" (nested_department row) (
            field "position" (get "position" row) (
              field "is_active" (boolean (truthy (get_or "is_active" (boolean true) row))) (
                field "created_at" (get "created_at" row)
                  (field "updated_at" (get "updated_at" row) no_fields)))))))

  -- whether an item is left out, apart from its department
  unfoldable pub unfit : Option String → List String → Row → Bool
  unfolding safe_employee is_name truthy get
  unfit department_id seen item =
      not (truthy (get "id" item))
      || not (is_name (get "full_name" (safe_employee item)))
      || contains (id_of host item) seen
      || (given department_id && not (same_text (department_id_of item) department_id))

  -- the row with the name and the code of its department
  unfoldable pub with_department : Row → Row → Row
  unfolding safe_employee shown_department set
  with_department item department =
      set "department" (object (shown_department (value (department_id_of item)) department))
        (safe_employee item)

  abbrev pub placed : Bool → Row → Option Row → Option Row
  unfolding with_department
  placed left_out item none = none
  placed left_out item (some department) =
      if left_out then none else some (with_department item department)

  -- the employee that an item of the directory shows, unless it is excluded
  unfoldable pub admitted : Index → Option String → List String → Row → Option Row
  unfolding unfit
  admitted visible department_id seen item =
      placed (unfit department_id seen item) item (indexed_by (department_id_of item) visible)

  -- an item that is left out is counted
  abbrev pub counted : Option Row → Row → Roster → Roster
  counted none item r = record r { excluded = suc r.excluded }
  counted (some row) item r = record {
    rows = r.rows ++ (row ∷ []);
    seen = id_of host item ∷ r.seen;
    excluded = r.excluded;
  }

  -- the loop over the items of one page
  unfoldable pub collect : Index → Option String → List Row → Roster → Roster
  unfolding admitted
  collect visible department_id [] r = r
  collect visible department_id (item ∷ rest) r =
      collect visible department_id rest
        (counted (admitted visible department_id r.seen item) item r)
