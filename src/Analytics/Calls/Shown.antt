-- ===== src/Analytics/Calls/Shown.antt =====
-- Which calls `_visible_call` of server/okk_mcp/backend_client.py lets through.
use okk_analytics_codex_plug.Common.{
  ℕ, ◌≡◌, refl, String, true, false, Option, none, some, nonempty, is_some, str_eq, eq_iff, arith,
  if◌then◌else◌,
}
use okk_analytics_codex_plug.Errors.{ok}
use okk_analytics_codex_plug.Json.{Row, get, lookup, truthy}
use okk_analytics_codex_plug.Json.Spelling.{spell}
use okk_analytics_codex_plug.Effect.{Host}
use okk_analytics_codex_plug.Oauth.Types.{Settings, given, value}
use okk_analytics_codex_plug.Platform.Context.{AccountContext}
use okk_analytics_codex_plug.Analytics.Adapter.{AdapterState, is_admin, context}
use okk_analytics_codex_plug.Analytics.Supervisors.{restricted_supervisor}
use okk_analytics_codex_plug.Analytics.Guarded.{
  MaySee, IsScoped, Guarded, Guarded-pure, Guarded-if, Guarded-bind,
}
use okk_analytics_codex_plug.Analytics.Scope.{Guarded-context}
use okk_analytics_codex_plug.Analytics.Employees.{Index, indexed}
use okk_analytics_codex_plug.Analytics.Directory.{visible_departments}
use okk_analytics_codex_plug.Analytics.Rosters.{IndexVisible, indexed-MaySee}
use okk_analytics_codex_plug.Analytics.Rosters.Loop.{Guarded-visible_departments}
use okk_analytics_codex_plug.Analytics.Calls.{safe_call, safe_supervisor_call, optional_id}
use okk_analytics_codex_plug.Analytics.Calls.Visible.{
  looked_up, differs, nested_employee, nested_department_id, placed_employee, checked_call,
  remembered_employee,
}

pub some_row : {a b : Row} → some a ≡ some b → a ≡ b
some_row e = cc

-- a filter that is given is the id
pub same_filter :
    (id : String) (wanted : Option String)
    → differs id wanted ≡ false
    → given wanted ≡ true
    → id ≡ value wanted
same_filter id wanted h g = (eq_iff id (value wanted)).0 (ground (arith, h, g))

module _ (host : Host) (c : AccountContext) where
  -- a department that the account may see, and the one that was asked for if one was
  abbrev pub Own : Option String → String → Type 0
  Own department_id own =
      MaySee host c own × (given department_id ≡ true → own ≡ value department_id)

  -- the safe projection of a call, but for the card of its employee
  abbrev pub IsSafe : Row → Row → Type 0
  IsSafe row out =
      (k : String) → str_eq k "employee" ≡ false → lookup k out ≡ lookup k (safe_call host row)

  module _ (settings : Settings) (session_id : ℕ) where
    -- the adapter after the catalog of supervisors was asked for the id
    abbrev pub after_supervisor : String → AdapterState → AdapterState
    after_supervisor id s = (restricted_supervisor host session_id id s).1

    -- What places a call of an employee, and what is shown of it.
    pub data PlacedBy (s : AdapterState) (row : Row) (department_id : Option String) (id : String)
        : Row → Type 0 where
      -- the call's own employee names a department
      nested :
          nonempty (nested_department_id host row) ≡ true
          → Own department_id (nested_department_id host row)
          → PlacedBy s row department_id id (safe_call host row)
      -- the employee is a supervisor of the account's catalog, and no department was asked for: only
      -- the transcription-only projection is shown
      supervised :
          (supervisor : Row)
          → nonempty (nested_department_id host row) ≡ false
          → (restricted_supervisor host session_id id s).0 ≡ ok (some supervisor)
          → given department_id ≡ false
          → PlacedBy s row department_id id (safe_supervisor_call host row supervisor)
      -- the call card names a department
      card :
          (out : Row)
          → nonempty (nested_department_id host row) ≡ false
          → truthy (get "department_id" row) ≡ true
          → Own department_id (spell host.repr (get "department_id" row))
          → IsSafe row out
          → PlacedBy s row department_id id out
      -- the directory has the employee in a department, and is the source of the name
      directory :
          (e out : Row)
          → nonempty (nested_department_id host row) ≡ false
          → truthy (get "department_id" row) ≡ false
          → (remembered_employee host settings session_id id
              (looked_up id (after_supervisor id s).call_employees)
              (after_supervisor id s)).0
            ≡ ok (some e)
          → Own department_id (spell host.repr (get "department_id" e))
          → IsSafe row out
          → lookup "employee" out
            ≡ some (placed_employee id (get "full_name" e) (get "department" e))
          → PlacedBy s row department_id id out

    -- A call that is shown, for the department and the employee that were asked for.
    pub record IsVisible (s : AdapterState) (row : Row) (department_id employee_id : Option String)
        (out : Row) : Type 0 where
      pub id : String
      pub own_id : id ≡ value (optional_id host "employee_id" row)
      pub has_employee : nonempty id ≡ true
      -- the employee who was asked for, if one was
      pub asked : given employee_id ≡ true → id ≡ value employee_id
      -- an employee that the call holds is the same one
      pub same_employee :
          truthy (get "id" (nested_employee host row)) ≡ true
          → spell host.repr (get "id" (nested_employee host row)) ≡ id
      pub placed : PlacedBy s row department_id id out

    -- what `checked_call` lets through
    abbrev Lets : Option String → String → Row → Option Row → Type 0
    Lets department_id own safe found =
        (out : Row) → found ≡ some out → Own department_id own × (safe ≡ out)

    shown_if :
        (own : String) (index : Index) (safe out : Row) (o : Option Row)
        → IndexVisible host c index
        → indexed own index ≡ o
        → (if is_some o then some safe else none) ≡ some out
        → MaySee host c own × (safe ≡ out)
    shown_if own index safe out none sees k e = cc
    shown_if own index safe out (some d) sees k e =
        (indexed-MaySee host c own index d sees k, some_row e)

    Guarded-checked :
        (department_id : Option String) (own : String) (safe : Row)
        → Guarded host c
            (Lets department_id own safe)
            (checked_call host settings session_id department_id own safe)
    unfolding checked_call
    Guarded-checked department_id own safe =
        Guarded-if host c (differs own department_id) _ _
          (λ d. Guarded-pure host c none λ out e. cc)
          λ d.
            Guarded-bind host c (context host session_id) _ (Guarded-context host c session_id)
              λ k e.
                Guarded-if host c (is_admin k) _ _
                  (λ admin.
                    Guarded-pure host c (some safe)
                      λ out is. (((λ n. cc), same_filter own department_id d), some_row is))
                  λ member.
                    Guarded-bind host c (visible_departments host settings session_id) _
                      (Guarded-visible_departments host c settings session_id)
                      λ index sees.
                        Guarded-pure host c
                          (if is_some (indexed own index) then some safe else none)
                          λ out is.
                            let (may, eq) =
                              shown_if own index safe out (indexed own index) sees refl is in
                            ((may, same_filter own department_id d), eq)

    -- the same from a state
    pub checked-Own :
        (department_id : Option String) (own : String) (safe : Row) (s : AdapterState) (out : Row)
        → IsScoped host c s
        → (checked_call host settings session_id department_id own safe s).0 ≡ ok (some out)
        → Own department_id own × (safe ≡ out)
    checked-Own department_id own safe s out scoped h =
        ((Guarded-checked department_id own safe).at s scoped).1 (some out) h out refl
