-- ===== src/Reporting/Private.antt =====
-- No edit history of a plan leaves `safe_plan_fact` of server/okk_mcp/reporting.py.
use okk_analytics_codex_plug.Common.{
  ◌≡◌, refl, sym, subst, Pairs, ◌∙◌, String, true, false, ◌||◌, Bool-cases, inl, inr, none, some,
  List, [], ◌∷◌, map, keep, contains, str_eq, ltb, nonempty, not, if◌then◌else◌,
}
use okk_analytics_codex_plug.Errors.{Result, ok, raised, ◌>>=◌}
use okk_analytics_codex_plug.Json.{
  Json, null, boolean, number, decimal, text, array, object, no_items, item, no_fields, field, Row,
  lookup, get, truthy, project, pick, dicts_of, items, dict_items, as_rows, as_dicts,
}
use okk_analytics_codex_plug.Analytics.Supervisors.{dict_rows}
use okk_analytics_codex_plug.Json.Equality.{lookup-set, lookup-set_other}
use okk_analytics_codex_plug.Json.Projection.{lookup-project}
use okk_analytics_codex_plug.Json.Spelling.{spell}
use okk_analytics_codex_plug.Effect.{Host}
use okk_analytics_codex_plug.Reporting.{
  plan_item_fields, plan_week_fields, safe_plan_item, plan_mode, PlanEmployee, PlanFact, rows_of,
  plan_employee, plan_employees, safe_plan_fact,
}

-- A plan item that is the projection of one of OKK's: of its history it says only whether there is one.
pub record IsProjection (given out : Row) : Type 0 where
  pub changed : lookup "changed" out ≡ some (boolean (truthy (get "changes" given)))
  pub shown :
      (k : String)
      → str_eq k "changed" ≡ false
      → lookup k out ≡ (if contains k plan_item_fields then lookup k given else none)

pub safe_plan_item-IsProjection : (given : Row) → IsProjection given (safe_plan_item given)
unfolding safe_plan_item
safe_plan_item-IsProjection given =
    let changed : Json = boolean (truthy (get "changes" given)) in
    record {
      changed = lookup-set "changed" changed (project plan_item_fields given);
      shown = λ k other.
          lookup-set_other k "changed" changed (project plan_item_fields given) other
          ∙ lookup-project k plan_item_fields given;
    }

items-IsProjection : (rows : List Row) → Pairs IsProjection rows (map safe_plan_item rows)
items-IsProjection [] = tt
items-IsProjection (row ∷ rows) = (safe_plan_item-IsProjection row, items-IsProjection rows)

-- what the parts of a result were
parts {ℓ κ} :
    {A : Type ℓ} {B : Type κ} (r : Result A) (f : A → Result B) (b : B)
    → (r >>= f) ≡ ok b
    → (a : A) × (r ≡ ok a) × (f a ≡ ok b)
parts (ok a) f b h = (a, refl, h)
parts (raised e) f b h = cc

same_result {ℓ} : {A : Type ℓ} (a b : A) → ◌≡◌ {A = Result A} (ok a) (ok b) → a ≡ b
same_result a b h = cc

module _ (host : Host) where
  -- the plans of an employee of OKK's report
  pub record IsEmployeePlan (entry : Row) (e : PlanEmployee) : Type 0 where
    pub own_id : e.employee_id ≡ spell host.repr (get "employee_id" entry)
    pub own_name : e.full_name ≡ get "full_name" entry
    pub projected : Pairs IsProjection (dict_items (get "items" entry)) e.items

  abbrev EmployeePlans : List Row → List PlanEmployee → Type 0
  EmployeePlans = Pairs IsEmployeePlan

  -- the dicts of a list, and nothing of what is no list
  rows_of-dict_items : (v : Json) (rows : List Row) → rows_of host v ≡ ok rows → dict_items v ≡ rows
  unfolding rows_of dict_rows dicts_of items truthy dict_items as_rows as_dicts
  rows_of-dict_items null rows h = cc
  rows_of-dict_items (boolean true) rows h = cc
  rows_of-dict_items (boolean false) rows h = cc
  rows_of-dict_items (number n) rows h = elim (Bool-cases (ltb 0 n)) [
    | inl e ↦ cc (rw e at h)
    | inr e ↦ cc (rw e at h)
  ]
  rows_of-dict_items (decimal s) rows h =
      elim (Bool-cases (not (str_eq s "0.0" || str_eq s "-0.0"))) [
        | inl e ↦ cc (rw e at h)
        | inr e ↦ cc (rw e at h)
      ]
  rows_of-dict_items (text s) rows h = elim (Bool-cases (nonempty s)) [
    | inl e ↦ cc (rw e at h)
    | inr e ↦ cc (rw e at h)
  ]
  rows_of-dict_items (array no_items) rows h = cc
  rows_of-dict_items (array (item v vs)) rows h = cc
  rows_of-dict_items (object no_fields) rows h = cc
  rows_of-dict_items (object (field k v row)) rows h = cc

  plan_employee-IsEmployeePlan :
      (entry : Row) (e : PlanEmployee) → plan_employee host entry ≡ ok e → IsEmployeePlan entry e
  unfolding plan_employee
  plan_employee-IsEmployeePlan entry e h =
      let (found, read, made) = parts (rows_of host (get "items" entry)) _ e h in
      subst (IsEmployeePlan entry) (same_result _ e made) (record {
        own_id = refl;
        own_name = refl;
        projected =
            subst (λ given. Pairs IsProjection given (map safe_plan_item found))
              (sym (rows_of-dict_items (get "items" entry) found read)) (items-IsProjection found);
      })

  plan_employees-EmployeePlans :
      (entries : List Row) (es : List PlanEmployee)
      → plan_employees host entries ≡ ok es
      → EmployeePlans entries es
  unfolding plan_employees
  plan_employees-EmployeePlans [] es h = subst (EmployeePlans []) (same_result [] es h) tt
  plan_employees-EmployeePlans (entry ∷ entries) es h =
      let (first, read, more) = parts (plan_employee host entry) _ es h in
      let (rest, read_rest, made) = parts (plan_employees host entries) _ es more in
      subst (EmployeePlans (entry ∷ entries)) (same_result (first ∷ rest) es made) (
        plan_employee-IsEmployeePlan entry first read,
        plan_employees-EmployeePlans entries rest read_rest,
      )

  -- the items of a report, and the employees with an id
  pub record IsPlanReport (report : Row) (out : PlanFact) : Type 0 where
    pub items_projected : Pairs IsProjection (dict_items (get "items" report)) out.items
    pub employees_projected :
        Pairs IsEmployeePlan
          (keep (λ entry. truthy (get "employee_id" entry)) (dict_items (get "employees" report)))
          out.employees

  -- The plan items of a report, the department's and those of each employee with an id, are those of
  -- OKK's report, each one in its place: the known keys that OKK gave with the values that it gave, no
  -- other key but `changed`, and there only, as a Boolean, whether the item has an edit history. Each
  -- employee keeps the id and the name.
  pub safe_plan_fact-IsPlanReport :
      (report : Row) (out : PlanFact)
      → safe_plan_fact host report ≡ ok out
      → IsPlanReport report out
  unfolding safe_plan_fact
  safe_plan_fact-IsPlanReport report out h =
      let (weeks, weeks_read, after_weeks) = parts (rows_of host (get "weeks" report)) _ out h in
      let (mode, mode_read, after_mode) =
        parts (plan_mode (map (pick plan_week_fields) weeks)) _ out after_weeks in
      let (items, items_read, after_items) =
        parts (rows_of host (get "items" report)) _ out after_mode in
      let (entries, entries_read, after_entries) =
        parts (rows_of host (get "employees" report)) _ out after_items in
      let (employees, employees_read, made) =
        parts (plan_employees host (keep (λ entry. truthy (get "employee_id" entry)) entries)) _ out
          after_entries in
      subst (IsPlanReport report) (same_result _ out made) (record {
        items_projected =
            subst (λ given. Pairs IsProjection given (map safe_plan_item items))
              (sym (rows_of-dict_items (get "items" report) items items_read))
              (items-IsProjection items);
        employees_projected =
            subst
              (λ given.
                EmployeePlans (keep (λ entry. truthy (get "employee_id" entry)) given) employees)
              (sym (rows_of-dict_items (get "employees" report) entries entries_read))
              (plan_employees-EmployeePlans
                (keep (λ entry. truthy (get "employee_id" entry)) entries) employees
                employees_read);
      })
