-- ===== src/Analytics/Lookups.antt =====
-- The lookups of one employee and of one supervisor keep the adapter scoped (server/okk_mcp/backend_client.py).
use okk_analytics_codex_plug.Common.{
  ℕ, ◌≡◌, String, Bool-cases, Option, none, some, List, [], ◌∷◌, inl, inr, str_eq, eq_iff,
  find_first, map, ap, ◌∙◌, sym,
}
use okk_analytics_codex_plug.Errors.{Exc, Result, ok, raised, is_not_available}
use okk_analytics_codex_plug.Json.{Json, Row, no_fields, as_dict, array, no_items}
use okk_analytics_codex_plug.Effect.{Host, pure, lift, gets, modify, try, raise, ◌>>=◌}
use okk_analytics_codex_plug.Oauth.Types.{Settings}
use okk_analytics_codex_plug.Platform.Context.{AccountContext}
use okk_analytics_codex_plug.Analytics.Adapter.{get_json}
use okk_analytics_codex_plug.Analytics.Journal.{id_of}
use okk_analytics_codex_plug.Analytics.Supervisors.{
  no_access, dict_rows, safe_restricted_supervisor, searched, known_or_loaded, supervisor_catalog,
  restricted_supervisors, restricted_supervisor,
}
use okk_analytics_codex_plug.Analytics.Guarded.{
  Guarded, Guarded-pure, Guarded-raise, Guarded-lift, Guarded-gets, Guarded-if, Guarded-modify,
  Guarded-bind, Guarded-settle, Guarded-try,
}
use okk_analytics_codex_plug.Analytics.Scope.{Guarded-get_json}
use okk_analytics_codex_plug.Analytics.Directory.{
  is_answer, employee_answer, employee, visible_departments,
}
use okk_analytics_codex_plug.Analytics.Rosters.Loop.{Guarded-visible_departments}

pub same_row : {a b : Row} → some a ≡ some b → a ≡ b
same_row e = cc

module _ (host : Host) (c : AccountContext) where
  module _ (settings : Settings) (session_id : ℕ) where
    Guarded-employee_answer :
        (id : String) (r : Result Json)
        → Guarded host c (λ found. Unit) (employee_answer host settings session_id id r)
    unfolding employee_answer
    Guarded-employee_answer id (raised e) =
        Guarded-if host c (is_not_available e) (pure none) (raise e)
          (λ k. Guarded-pure host c none tt) λ k. Guarded-raise host c e
    Guarded-employee_answer id (ok payload) =
        Guarded-bind host c (lift (as_dict payload)) _
          (Guarded-lift host c {Q = λ raw. Unit} (as_dict payload) λ b e. tt)
          λ raw u.
            Guarded-if host c (is_answer host settings session_id id raw) _ (pure none)
              (λ k.
                Guarded-bind host c (visible_departments host settings session_id) _
                  (Guarded-visible_departments host c settings session_id)
                  λ index sees. Guarded-pure host c _ tt)
              λ k. Guarded-pure host c none tt

    -- a lookup of an employee changes no department
    pub Guarded-employee :
        (id : String) → Guarded host c (λ found. Unit) (employee host settings session_id id)
    unfolding employee
    Guarded-employee id =
        Guarded-settle host c (get_json host session_id _ no_fields)
          (employee_answer host settings session_id id)
          (Guarded-get_json host c session_id _ no_fields) (Guarded-employee_answer id)

    Guarded-no_access : (e : Exc) → Guarded host c (λ v. Unit) (no_access e)
    unfolding no_access
    Guarded-no_access e =
        Guarded-if host c (is_not_available e) (pure (array no_items)) (raise e)
          (λ k. Guarded-pure host c (array no_items) tt) λ k. Guarded-raise host c e

    Guarded-known_or_loaded :
        (known : Option (List Row))
        → Guarded host c (λ rows. Unit) (known_or_loaded host session_id known)
    unfolding dict_rows
    Guarded-known_or_loaded (some rows) = Guarded-pure host c rows tt
    Guarded-known_or_loaded none =
        Guarded-bind host c
          (try (get_json host session_id "/employees/restricted" no_fields) no_access) _
          (Guarded-try host c (get_json host session_id "/employees/restricted" no_fields) no_access
            (Guarded-get_json host c session_id "/employees/restricted" no_fields)
            Guarded-no_access)
          λ payload u.
            Guarded-bind host c (lift (dict_rows host payload)) _
              (Guarded-lift host c {Q = λ rows. Unit} (dict_rows host payload) λ b e. tt)
              λ found v.
                Guarded-bind host c
                  (modify (λ s. record s {
                    restricted_supervisors = some (map (safe_restricted_supervisor host) found);
                  }))
                  (λ w. pure (map (safe_restricted_supervisor host) found))
                  (Guarded-modify host c
                    (λ s. record s {
                      restricted_supervisors = some (map (safe_restricted_supervisor host) found);
                    })
                    λ s h. h)
                  λ w x. Guarded-pure host c _ tt

    found_id :
        (id : String) (rows : List Row) (row : Row)
        → find_first (λ row. str_eq (id_of host row) id) rows ≡ some row
        → id_of host row ≡ id
    found_id id [] row e = cc
    found_id id (first ∷ rows) row e = elim (Bool-cases (str_eq (id_of host first) id)) [
      | inl k ↦
          let own : first ≡ row = same_row (rw k at e) in
          ap (id_of host) (sym own) ∙ (eq_iff (id_of host first) id).0 k
      | inr k ↦ found_id id rows row (rw k at e)
    ]

    abbrev pub HasId : String → Option Row → Type 0
    HasId id found = (s : Row) → found ≡ some s → id_of host s ≡ id

    pub Guarded-restricted_supervisor :
        (id : String) → Guarded host c (HasId id) (restricted_supervisor host session_id id)
    unfolding restricted_supervisor restricted_supervisors searched supervisor_catalog
    Guarded-restricted_supervisor id =
        Guarded-bind host c
          (gets (λ s. s.restricted_supervisors) >>= known_or_loaded host session_id >>= λ rows.
            pure rows)
          (λ rows. pure (find_first (λ row. str_eq (id_of host row) id) rows))
          (Guarded-bind host c {P = λ rows. Unit}
            (gets (λ s. s.restricted_supervisors) >>= known_or_loaded host session_id)
            (λ rows. pure rows)
            (Guarded-bind host c (gets (λ s. s.restricted_supervisors))
              (known_or_loaded host session_id)
              (Guarded-gets host c {Q = λ k. Unit} (λ s. s.restricted_supervisors) λ s h. tt)
              λ known u. Guarded-known_or_loaded known)
            λ rows u. Guarded-pure host c {Q = λ rows. Unit} rows tt)
          λ rows u. Guarded-pure host c _ λ s e. found_id id rows s e
