-- ===== src/Analytics/Scope.antt =====
-- The departments that a tool call goes on with are the account's (`departments` and
-- `resolve_department` of server/okk_mcp/backend_client.py).
use okk_analytics_codex_plug.Common.{
  ℕ, ap, ◌≡◌, refl, String, Bool, true, false, not, ◌&&◌, Option, none, some, List, [], ◌∷◌, map,
  keep, any, All, contains, if◌then◌else◌,
}
use okk_analytics_codex_plug.Json.{Row, get, or_null, as_rows, no_fields}
use okk_analytics_codex_plug.Json.Projection.{lookup-project}
use okk_analytics_codex_plug.Json.Spelling.{spell}
use okk_analytics_codex_plug.Effect.{Host, query, pure, lift, gets, modify}
use okk_analytics_codex_plug.Platform.Context.{AccountContext}
use okk_analytics_codex_plug.Platform.Reads.{get_with_context}
use okk_analytics_codex_plug.Maintenance.Rows.{keep-All}
use okk_analytics_codex_plug.Analytics.Adapter.{
  act, query_of, is_admin, known_context, context, get_json,
}
use okk_analytics_codex_plug.Analytics.Journal.{id_of, text_at}
use okk_analytics_codex_plug.Analytics.Departments.{
  department_keys, safe_department, allowed_departments, loaded, catalog, departments,
}
use okk_analytics_codex_plug.Analytics.Guarded.{
  MaySee, AllVisible, Known, Guarded, Guarded-pure, Guarded-lift, Guarded-gets, Guarded-if,
  Guarded-act, Guarded-modify, Guarded-bind,
}

pub All-if :
    (P : Row → Type 0) (b : Bool) (xs ys : List Row)
    → (b ≡ true → All P xs)
    → (b ≡ false → All P ys)
    → All P (if b then xs else ys)
All-if P true xs ys f g = f refl
All-if P false xs ys f g = g refl

module _ (host : Host) (c : AccountContext) (session_id : ℕ) where
  Guarded-known_context :
      (known : Option AccountContext)
      → known ≡ some c
      → Guarded host c (λ d. d ≡ c) (known_context host session_id known)
  Guarded-known_context (some d) e = Guarded-pure host c d (cc)
  Guarded-known_context none e = cc

  pub Guarded-context : Guarded host c (λ d. d ≡ c) (context host session_id)
  unfolding context
  Guarded-context =
      Guarded-bind host c (gets (λ s. s.context)) (known_context host session_id)
        (Guarded-gets host c (λ s. s.context) λ s h. h.0) Guarded-known_context

  pub Guarded-get_json :
      (path : String) (params : Row)
      → Guarded host c (λ v. Unit) (get_json host session_id path params)
  unfolding get_json
  Guarded-get_json path params =
      Guarded-bind host c (context host session_id) _ Guarded-context λ d e.
        Guarded-bind host c (act (get_with_context host d path (query (query_of host params))))
          (λ body. pure (host.loads body)) (Guarded-act host c _)
          λ body u. Guarded-pure host c (host.loads body) tt

  same_id : (row : Row) → id_of host (safe_department row) ≡ id_of host row
  unfolding safe_department get text_at contains
  same_id row = ap (λ v. spell host.repr (or_null v)) (lookup-project "id" department_keys row)

  all_rows : (P : Row → Type 0) (rows : List Row) → ((row : Row) → P row) → All P rows
  all_rows P [] f = tt
  all_rows P (row ∷ rows) f = (f row, all_rows P rows f)

  abbrev ours : Row → Bool
  ours row = contains (id_of host row) c.department_ids

  allowed-AllVisible : (rows : List Row) → AllVisible host c (allowed_departments host c rows)
  unfolding allowed_departments
  allowed-AllVisible rows =
      All-if (λ row. MaySee host c (id_of host row)) (is_admin c) rows (keep ours rows)
        (λ e. all_rows (λ row. MaySee host c (id_of host row)) rows λ row n. cc)
        (λ e.
          keep-All (λ row. Unit) (λ row. MaySee host c (id_of host row)) ours rows (λ row h u n. h)
            (all_rows (λ row. Unit) rows λ row. tt))

  safe-AllVisible :
      (rows : List Row) → AllVisible host c rows → AllVisible host c (map safe_department rows)
  safe-AllVisible [] h = tt
  safe-AllVisible (row ∷ rows) h = (rw (same_id row) h.0, safe-AllVisible rows h.1)

  Guarded-loaded :
      (d : AccountContext) → d ≡ c → Guarded host c (AllVisible host c) (loaded host session_id d)
  unfolding loaded
  Guarded-loaded d e = rw e (
      Guarded-if host c (not (is_admin c) && not (any (λ d. true) c.department_ids)) _ _
        (λ lone. Guarded-pure host c [] tt)
        (λ some_of.
          Guarded-bind host c (get_json host session_id "/departments" no_fields) _
            (Guarded-get_json "/departments" no_fields)
            λ payload u.
              Guarded-bind host c (lift (as_rows payload))
                (λ rows. pure (map safe_department (allowed_departments host c rows)))
                (Guarded-lift host c (as_rows payload) (λ b h. tt))
                λ rows v.
                  Guarded-pure host c (map safe_department (allowed_departments host c rows))
                    (safe-AllVisible (allowed_departments host c rows) (allowed-AllVisible rows))))

  Guarded-catalog :
      (known : Option (List Row))
      → Known host c known
      → Guarded host c (AllVisible host c) (catalog host session_id known)
  Guarded-catalog (some rows) h = Guarded-pure host c rows h
  Guarded-catalog none h = Guarded-bind host c (context host session_id) _ Guarded-context λ d e.
      Guarded-bind host c (loaded host session_id d) _ (Guarded-loaded d e) λ rows v.
        Guarded-bind host c (modify (λ s. record s { departments = some rows })) (λ u. pure rows)
          (Guarded-modify host c (λ s. record s { departments = some rows }) λ s k. (k.0, v))
          λ u w. Guarded-pure host c rows v

  pub Guarded-departments : Guarded host c (AllVisible host c) (departments host session_id)
  unfolding departments
  Guarded-departments =
      Guarded-bind host c (gets (λ s. s.departments)) (catalog host session_id)
        (Guarded-gets host c (λ s. s.departments) λ s h. h.1) Guarded-catalog
