-- ===== src/Analytics/EntityScope.antt =====
-- `resolve_entity_scope` of server/okk_mcp/backend_client.py keeps the adapter scoped.
use okk_analytics_codex_plug.Common.{ℕ, String, true, false, not, ◌&&◌, Option, none, some}
use okk_analytics_codex_plug.Json.{Json, Row, truthy}
use okk_analytics_codex_plug.Json.Spelling.{spell}
use okk_analytics_codex_plug.Effect.{Host, pure}
use okk_analytics_codex_plug.Oauth.Types.{Settings, given, value}
use okk_analytics_codex_plug.Platform.Context.{AccountContext}
use okk_analytics_codex_plug.Analytics.Guarded.{Guarded, Guarded-pure, Guarded-if, Guarded-bind}
use okk_analytics_codex_plug.Analytics.Scope.{Guarded-departments}
use okk_analytics_codex_plug.Analytics.Departments.{departments, resolve_department}
use okk_analytics_codex_plug.Analytics.Resolved.{Guarded-resolve}
use okk_analytics_codex_plug.Analytics.Directory.{
  present, employee, scoped_employee, resolve_entity_scope, with_employee,
}
use okk_analytics_codex_plug.Analytics.Lookups.{Guarded-employee}

module _ (host : Host) (c : AccountContext) (settings : Settings) (session_id : ℕ) where
  Guarded-scoped_employee :
      (id : Option String) (department : Option Row)
      → Guarded host c (λ found. Unit) (scoped_employee host settings session_id id department)
  unfolding scoped_employee
  Guarded-scoped_employee id department =
      Guarded-if host c (not (given id)) (pure none) _ (λ k. Guarded-pure host c none tt)
        λ k.
          Guarded-bind host c (employee host settings session_id (value id)) _
            (Guarded-employee host c settings session_id (value id))
            λ row u. Guarded-pure host c _ tt

  Guarded-with_employee :
      (department found : Option Row)
      → Guarded host c (λ scope. Unit) (with_employee host settings session_id department found)
  unfolding with_employee
  Guarded-with_employee department none = Guarded-pure host c (department, none, true) tt
  Guarded-with_employee (some department) (some e) =
      Guarded-pure host c (some department, some e, false) tt
  Guarded-with_employee none (some e) =
      Guarded-bind host c (departments host session_id) _ (Guarded-departments host c session_id)
        λ rows v. Guarded-pure host c _ tt

  pub Guarded-scope :
      (department_id department_ref employee_id : Json)
      → Guarded host c
          (λ scope. Unit)
          (resolve_entity_scope host settings session_id department_id department_ref employee_id)
  unfolding resolve_entity_scope
  Guarded-scope department_id department_ref employee_id =
      Guarded-bind host c (resolve_department host session_id department_id department_ref) _
        (Guarded-resolve host c session_id department_id department_ref)
        λ found r.
          Guarded-if host c (found.1 && not (present found.0)) (pure (none, none, true)) _
            (λ k. Guarded-pure host c (none, none, true) tt)
            λ k.
              Guarded-if host c (not (truthy employee_id)) (pure (found.0, none, false)) _
                (λ l. Guarded-pure host c (found.0, none, false) tt)
                λ l.
                  Guarded-bind host c
                    (scoped_employee host settings session_id (some (spell host.repr employee_id))
                      found.0)
                    _ (Guarded-scoped_employee (some (spell host.repr employee_id)) found.0)
                    λ e u. Guarded-with_employee found.0 e
