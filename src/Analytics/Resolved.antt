-- ===== src/Analytics/Resolved.antt =====
-- Which department `resolve_department` of server/okk_mcp/backend_client.py finds for the selectors of a
-- tool call.
use okk_analytics_codex_plug.Common.{
  ℕ, ◌≡◌, String, Bool, true, false, Option, none, some, List, any, All,
}
use okk_analytics_codex_plug.Errors.{ok}
use okk_analytics_codex_plug.Json.{Json, Row}
use okk_analytics_codex_plug.Effect.{Host, pure}
use okk_analytics_codex_plug.Platform.Context.{AccountContext}
use okk_analytics_codex_plug.Analytics.Adapter.{AdapterState}
use okk_analytics_codex_plug.Analytics.Journal.{id_of}
use okk_analytics_codex_plug.Analytics.Departments.{
  departments, resolved, agreed, given_selectors, resolve_department,
}
use okk_analytics_codex_plug.Analytics.Guarded.{
  MaySee, AllVisible, Guarded, Guarded-pure, Guarded-if, Guarded-bind,
}
use okk_analytics_codex_plug.Analytics.Scope.{Guarded-departments}
use okk_analytics_codex_plug.Analytics.Selectors.{Names}

module _ (host : Host) where
  -- The outcome of a search for a department, from the state of the adapter.
  pub record IsResolved (c : AccountContext) (session_id : ℕ) (department_id department_ref : Json)
      (s : AdapterState) (found : Option Row × Bool) : Type 0 where
    -- whether a selector was given, one that names nothing included
    pub supplied : found.1 ≡ any (λ v. true) (given_selectors department_id department_ref)
    -- without a selector there is no department
    pub unasked : found.1 ≡ false → found.0 ≡ none
    -- with one, among the departments that the account sees
    pub asked :
        found.1 ≡ true
        → (rows : List Row) × ((departments host session_id s).0 ≡ ok rows)
          × AllVisible host c rows
          -- what is found is the only one that each selector names
          × ((row : Row)
              → found.0 ≡ some row
              → MaySee host c (id_of host row)
                × All
                    (Names host rows (id_of host row))
                    (given_selectors department_id department_ref))
          -- and nothing is found only if they name no department in common
          × (found.0 ≡ none
              → (id : String)
              → ¬ All (Names host rows id) (given_selectors department_id department_ref))

  module _ (c : AccountContext) (session_id : ℕ) where
    pub Guarded-resolve :
        (department_id department_ref : Json)
        → Guarded host c
            (λ found. Unit)
            (resolve_department host session_id department_id department_ref)
    unfolding resolve_department
    Guarded-resolve department_id department_ref =
        let selectors : List Json = given_selectors department_id department_ref in
        Guarded-if host c (any (λ v. true) selectors) _ (pure (none, false))
          (λ asked.
            Guarded-bind host c (departments host session_id)
              (λ rows. pure (agreed host (resolved host selectors rows), true))
              (Guarded-departments host c session_id) λ rows visible. Guarded-pure host c _ tt)
          λ unasked. Guarded-pure host c (none, false) tt
