-- ===== src/Analytics/Calls/Checked.antt =====
-- The checks of `_visible_call` of server/okk_mcp/backend_client.py, branch by branch.
use okk_analytics_codex_plug.Common.{
  ℕ, ◌≡◌, ◌≢◌, refl, sym, ap, subst, ◌∙◌, String, Bool, true, false, not, ◌&&◌, ◌||◌, Bool-cases,
  inl, inr, Option, none, some, ◌∷◌, nonempty, eq_iff, arith, if◌then◌else◌,
}
use okk_analytics_codex_plug.Errors.{ok}
use okk_analytics_codex_plug.Json.{Json, Row, get, lookup, set, truthy}
use okk_analytics_codex_plug.Json.Equality.{lookup-set, lookup-set_other}
use okk_analytics_codex_plug.Json.Spelling.{spell}
use okk_analytics_codex_plug.Effect.{Host, pure, modify, ◌>>=◌}
use okk_analytics_codex_plug.Effect.Outcomes.{bind-ok, ok_injective, branches}
use okk_analytics_codex_plug.Oauth.Types.{Settings, given, value}
use okk_analytics_codex_plug.Platform.Context.{AccountContext}
use okk_analytics_codex_plug.Analytics.Adapter.{AdapterState}
use okk_analytics_codex_plug.Analytics.Departments.{departments}
use okk_analytics_codex_plug.Analytics.Supervisors.{restricted_supervisor}
use okk_analytics_codex_plug.Analytics.Guarded.{
  IsScoped, Guarded, Guarded-pure, Guarded-modify, Guarded-bind,
}
use okk_analytics_codex_plug.Analytics.Scope.{Guarded-departments}
use okk_analytics_codex_plug.Analytics.Directory.{employee}
use okk_analytics_codex_plug.Analytics.Lookups.{Guarded-employee, Guarded-restricted_supervisor}
use okk_analytics_codex_plug.Analytics.Calls.{safe_call, optional_id}
use okk_analytics_codex_plug.Analytics.Calls.Visible.{
  looked_up, differs, nested_employee, nested_department_id, is_mismatched, placed_employee,
  checked_call, by_card, remembered_employee, by_employee, by_directory, by_department,
  by_supervisor, visible_call,
}
use okk_analytics_codex_plug.Analytics.Calls.Shown.{
  Own, IsSafe, after_supervisor, PlacedBy, nested, supervised, card, directory, IsVisible,
  checked-Own, same_filter, some_row,
}

no_row : {a : Row} → none ≢ some a
no_row e = cc

module _ (host : Host) (c : AccountContext) (settings : Settings) (session_id : ℕ) where
  card_kept :
      (row out : Row) (v : Json)
      → set "employee" v (safe_call host row) ≡ out
      → IsSafe host c row out
  card_kept row out v same k other =
      ap (lookup k) (sym same) ∙ lookup-set_other k "employee" v (safe_call host row) other

  card-Own :
      (department_id : Option String) (id : String) (row : Row) (s : AdapterState) (out : Row)
      → IsScoped host c s
      → (by_card host settings session_id department_id id row s).0 ≡ ok (some out)
      → Own host c department_id (spell host.repr (get "department_id" row)) × IsSafe host c row out
  unfolding by_card
  card-Own department_id id row s out scoped h =
      let (rows, read, later) = bind-ok (departments host session_id) _ s (some out) h in
      let (own, same) =
        checked-Own host c settings session_id department_id _ _ (departments host session_id s).1
          out ((Guarded-departments host c session_id).at s scoped).0 later in
      (own, card_kept row out _ same)

  Guarded-remembered_employee :
      (id : String) (known : Option (Option Row))
      → Guarded host c (λ found. Unit) (remembered_employee host settings session_id id known)
  unfolding remembered_employee
  Guarded-remembered_employee id (some found) = Guarded-pure host c found tt
  Guarded-remembered_employee id none =
      Guarded-bind host c (employee host settings session_id id) _
        (Guarded-employee host c settings session_id id)
        λ found u.
          Guarded-bind host c
            (modify (λ s. record s { call_employees = (id, found) ∷ s.call_employees }))
            (λ v. pure found)
            (Guarded-modify host c
              (λ s. record s { call_employees = (id, found) ∷ s.call_employees }) λ s h. h)
            λ v w. Guarded-pure host c found tt

  -- a call that the directory places
  record InDirectory (department_id : Option String) (id : String) (row : Row) (s : AdapterState)
      (out : Row) : Type 0 where
    pub e : Row
    pub found :
        (remembered_employee host settings session_id id (looked_up id s.call_employees) s).0
        ≡ ok (some e)
    pub own : Own host c department_id (spell host.repr (get "department_id" e))
    pub safe : IsSafe host c row out
    pub shown :
        lookup "employee" out ≡ some (placed_employee id (get "full_name" e) (get "department" e))

  employee-InDirectory :
      (department_id : Option String) (id : String) (row : Row) (found : Option Row)
      (s t : AdapterState) (out : Row)
      → IsScoped host c t
      → (remembered_employee host settings session_id id (looked_up id s.call_employees) s).0
        ≡ ok found
      → (by_employee host settings session_id department_id id row found t).0 ≡ ok (some out)
      → InDirectory department_id id row s out
  unfolding by_employee
  employee-InDirectory department_id id row none s t out scoped read h = cc
  employee-InDirectory department_id id row (some e) s t out scoped read h =
      let v : Json = placed_employee id (get "full_name" e) (get "department" e) in
      let (own, same) =
        checked-Own host c settings session_id department_id
          (spell host.repr (get "department_id" e)) (set "employee" v (safe_call host row)) t out
          scoped h in
      record {
        e = e;
        found = read;
        own = own;
        safe = card_kept row out v same;
        shown = ap (lookup "employee") (sym same) ∙ lookup-set "employee" v (safe_call host row);
      }

  directory-InDirectory :
      (department_id : Option String) (id : String) (row : Row) (s : AdapterState) (out : Row)
      → IsScoped host c s
      → (by_directory host settings session_id department_id id row s).0 ≡ ok (some out)
      → InDirectory department_id id row s out
  unfolding by_directory
  directory-InDirectory department_id id row s out scoped h =
      let known = looked_up id s.call_employees in
      let (found, read, later) =
        bind-ok (remembered_employee host settings session_id id known) _ s (some out) h in
      employee-InDirectory department_id id row found s _ out
        ((Guarded-remembered_employee id known).at s scoped).0 read later

  department-PlacedBy :
      (department_id : Option String) (id : String) (row : Row) (s : AdapterState) (out : Row)
      → IsScoped host c (after_supervisor host c settings session_id id s)
      → nonempty (nested_department_id host row) ≡ false
      → (by_department host settings session_id department_id id row
          (after_supervisor host c settings session_id id s)).0
        ≡ ok (some out)
      → PlacedBy host c settings session_id s row department_id id out
  unfolding by_department
  department-PlacedBy department_id id row s out scoped empty h =
      elim (Bool-cases (truthy (get "department_id" row))) [
        | inl t ↦
            let (own, safe) = card-Own department_id id row _ out scoped (rw t at h) in
            card out empty t own safe
        | inr f ↦
            let d = directory-InDirectory department_id id row _ out scoped (rw f at h) in
            directory d.e out empty f d.found d.own d.safe d.shown
      ]

  supervisor-PlacedBy :
      (department_id : Option String) (id : String) (row : Row) (s : AdapterState) (out : Row)
      (found : Option Row)
      → IsScoped host c (after_supervisor host c settings session_id id s)
      → nonempty (nested_department_id host row) ≡ false
      → (restricted_supervisor host session_id id s).0 ≡ ok found
      → (by_supervisor host settings session_id department_id id row found
          (after_supervisor host c settings session_id id s)).0
        ≡ ok (some out)
      → PlacedBy host c settings session_id s row department_id id out
  unfolding by_supervisor
  supervisor-PlacedBy department_id id row s out none scoped empty read h =
      department-PlacedBy department_id id row s out scoped empty h
  supervisor-PlacedBy department_id id row s out (some r) scoped empty read h =
      elim (branches (given department_id) _ _ (after_supervisor host c settings session_id id s)
        (some out) h) [
          | inl (g, asked) ↦ department-PlacedBy department_id id row s out scoped empty asked
          | inr (n, shown) ↦
              subst (PlacedBy host c settings session_id s row department_id id)
                (some_row (ok_injective shown)) (supervised r empty read n)
        ]

  three : (a b d : Bool) → (not a || b || d) ≡ false → (a ≡ true) × (b ≡ false) × (d ≡ false)
  three a b d h = (ground arith, ground arith, ground arith)

  both_true : (a b : Bool) → (a && not b) ≡ false → a ≡ true → b ≡ true
  both_true a b h t = ground arith

  -- the id in the call's own card
  same_in_card :
      (id : String) (row : Row)
      → is_mismatched host id row ≡ false
      → truthy (get "id" (nested_employee host row)) ≡ true
      → spell host.repr (get "id" (nested_employee host row)) ≡ id
  unfolding is_mismatched
  same_in_card id row h t =
      (eq_iff (spell host.repr (get "id" (nested_employee host row))) id).0 (both_true _ _ h t)

  placed-PlacedBy :
      (department_id : Option String) (id : String) (row : Row) (s : AdapterState) (out : Row)
      → IsScoped host c s
      → ((if nonempty (nested_department_id host row)
            then checked_call host settings session_id department_id
                (nested_department_id host row)
                (safe_call host row)
            else (restricted_supervisor host session_id id
                >>= by_supervisor host settings session_id department_id id row))
          s).0
        ≡ ok (some out)
      → PlacedBy host c settings session_id s row department_id id out
  placed-PlacedBy department_id id row s out scoped h =
      elim (Bool-cases (nonempty (nested_department_id host row))) [
        | inl n ↦
            let (own, same) =
              checked-Own host c settings session_id department_id _ _ s out scoped (rw n at h) in
            subst (PlacedBy host c settings session_id s row department_id id) same (nested n own)
        | inr empty ↦
            let (found, read, later) =
              bind-ok (restricted_supervisor host session_id id) _ s (some out) (rw empty at h) in
            supervisor-PlacedBy department_id id row s out found
              ((Guarded-restricted_supervisor host c settings session_id id).at s scoped).0 empty
              read later
      ]

  -- Whatever OKK answers, `_visible_call` lets a call through only if its employee is the one asked for, if
  -- one was, and the same in the call's own card; and only as one of these: placed by its employee, its
  -- card or the directory's record of its employee in a department that the account may see, the one
  -- asked for if one was, as the safe projection of the call; or as the transcription-only projection of
  -- a call of a supervisor of the account's catalog, where no department was asked for.
  pub visible_call-IsVisible :
      (row : Row) (department_id employee_id : Option String) (s : AdapterState) (out : Row)
      → IsScoped host c s
      → (visible_call host settings session_id row department_id employee_id s).0 ≡ ok (some out)
      → IsVisible host c settings session_id s row department_id employee_id out
  unfolding visible_call
  visible_call-IsVisible row department_id employee_id s out scoped h =
      let id : String = value (optional_id host "employee_id" row) in
      elim (Bool-cases (not (nonempty id) || differs id employee_id || is_mismatched host id row)) [
        | inl refused ↦ absurd (no_row (ok_injective (rw refused at h)))
        | inr passes ↦
            let (has_id, asked, in_card) =
              three (nonempty id) (differs id employee_id) (is_mismatched host id row) passes in
            record {
              id = id;
              own_id = refl;
              has_employee = has_id;
              asked = same_filter id employee_id asked;
              same_employee = same_in_card id row in_card;
              placed = placed-PlacedBy department_id id row s out scoped (rw passes at h);
            }
      ]
