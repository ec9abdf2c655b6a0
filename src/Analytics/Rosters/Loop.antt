-- ===== src/Analytics/Rosters/Loop.antt =====
-- `employees` of server/okk_mcp/backend_client.py returns a directory that the account may see.
use okk_analytics_codex_plug.Common.{
  ℕ, zero, suc, ◌≤◌, ◌≡◌, refl, String, Bool, true, false, not, ◌&&◌, ◌||◌, Option, List, [], ◌∷◌,
  any, All, length, take, contains, ltb, leb, is_some, arith, if◌then◌else◌,
}
use okk_analytics_codex_plug.Errors.{ok, timeout_error}
use okk_analytics_codex_plug.Json.{Row}
use okk_analytics_codex_plug.Effect.{Host, pure}
use okk_analytics_codex_plug.Oauth.Types.{Settings, given}
use okk_analytics_codex_plug.Platform.Context.{AccountContext}
use okk_analytics_codex_plug.Maintenance.Rows.{take-All}
use okk_analytics_codex_plug.Analytics.Adapter.{AdapterState, Call, is_admin, context, get_json}
use okk_analytics_codex_plug.Analytics.Journal.{Page}
use okk_analytics_codex_plug.Analytics.Journal.Distinct.{IsDistinct, take-IsDistinct}
use okk_analytics_codex_plug.Analytics.Journal.Run.{all_read}
use okk_analytics_codex_plug.Analytics.Guarded.{
  IsScoped, Guarded, Guarded-pure, Guarded-raise, Guarded-lift, Guarded-if, Guarded-bind,
}
use okk_analytics_codex_plug.Analytics.Scope.{
  Guarded-context, Guarded-get_json, Guarded-departments,
}
use okk_analytics_codex_plug.Analytics.Departments.{departments}
use okk_analytics_codex_plug.Analytics.Employees.{Index, indexed_by, index_rows, Roster, collect}
use okk_analytics_codex_plug.Analytics.Directory.{
  Employees, or_length, listing_of, read_directory, visible_departments, employee_loop, employees,
}
use okk_analytics_codex_plug.Analytics.Rosters.{
  IndexVisible, index_rows-IndexVisible, IsShown, IsRoster,
}
use okk_analytics_codex_plug.Analytics.Rosters.Items.{collect-IsRoster}

-- What `employees` returns.
pub record IsDirectory (host : Host) (c : AccountContext) (department_id : Option String) (most : ℕ)
    (out : Employees) : Type 0 where
  pub all_shown : All (IsShown host c department_id) out.0
  pub distinct : IsDistinct host out.0
  pub within : length out.0 ≤ most

length-take : (n : ℕ) (rows : List Row) → length (take n rows) ≤ n
length-take zero rows = omega arith
length-take (suc n) [] = omega arith
length-take (suc n) (row ∷ rows) = omega (arith, length-take n rows)

module _ (host : Host) where
  module _ (c : AccountContext) (visible : Index) (department_id : Option String)
      (sees : IndexVisible host c visible) where
    cut_roster :
        (most : ℕ) (r : Roster) (complete : Bool) (total excluded : ℕ)
        → IsRoster host c department_id r
        → IsDirectory host c department_id most (take most r.rows, complete, total, excluded)
    cut_roster most r complete total excluded h = record {
      all_shown = take-All (IsShown host c department_id) most r.rows h.all_shown;
      distinct = take-IsDistinct host most r.rows h.distinct;
      within = length-take most r.rows;
    }

    whole_roster :
        (most : ℕ) (r : Roster) (complete : Bool) (total excluded : ℕ)
        → IsRoster host c department_id r
        → length r.rows ≤ most
        → IsDirectory host c department_id most (r.rows, complete, total, excluded)
    whole_roster most r complete total excluded h small = record {
      all_shown = h.all_shown;
      distinct = h.distinct;
      within = small;
    }

    module _ (settings : Settings) (session_id : ℕ) (search : Option String)
        (include_inactive : Bool) where
      abbrev most : ℕ
      most = settings.analytics_max_employees

      Guarded-read :
          (page : ℕ)
          → Guarded host c
              (λ p. Unit)
              (read_directory host settings session_id visible department_id search include_inactive
                page)
      unfolding read_directory
      Guarded-read page =
          Guarded-bind host c (get_json host session_id "/employees" _) _
            (Guarded-get_json host c session_id "/employees" _)
            λ payload u. Guarded-lift host c (listing_of host payload) λ b e. tt

      decided :
          (page : ℕ) (p : Page) (r : Roster) (next : Call Employees)
          → IsRoster host c department_id r
          → Guarded host c (IsDirectory host c department_id most) next
          → Guarded host c (IsDirectory host c department_id most) (
              if leb most (length r.rows) && (ltb page p.pages || ltb most (length r.rows))
              then pure (take most r.rows, false, or_length p.total r.rows, r.excluded)
              else if leb p.pages page
              then pure (r.rows, true, or_length p.total r.rows, r.excluded)
              else next)
      decided page p r next h g =
          Guarded-if host c
            (leb most (length r.rows) && (ltb page p.pages || ltb most (length r.rows))) _ _
            (λ full.
              Guarded-pure host c (take most r.rows, false, or_length p.total r.rows, r.excluded)
                (cut_roster most r false (or_length p.total r.rows) r.excluded h))
            λ fits.
              Guarded-if host c (leb p.pages page) _ next
                (λ last.
                  Guarded-pure host c (r.rows, true, or_length p.total r.rows, r.excluded)
                    (whole_roster most r true (or_length p.total r.rows) r.excluded h
                      (all_read page p.pages (length r.rows) most fits last)))
                λ more. g

      loop-Guarded :
          (fuel page total : ℕ) (r : Roster)
          → IsRoster host c department_id r
          → Guarded host c (IsDirectory host c department_id most) (
              employee_loop host settings session_id visible department_id search include_inactive
                fuel page total r)
      unfolding employee_loop
      loop-Guarded zero page total r h = Guarded-raise host c (timeout_error "time budget")
      loop-Guarded (suc fuel) page total r h =
          Guarded-if host c (leb most (length r.rows)) _ _
            (λ full.
              Guarded-pure host c (take most r.rows, false, or_length total r.rows, r.excluded)
                (cut_roster most r false (or_length total r.rows) r.excluded h))
            λ room.
              Guarded-bind host c
                (read_directory host settings session_id visible department_id search
                  include_inactive page)
                _ (Guarded-read page)
                λ p u.
                  let grown : Roster = collect host visible department_id p.rows r in
                  let h' : IsRoster host c department_id grown =
                    collect-IsRoster host c visible department_id sees p.rows r h in
                  decided page p grown _ h' (loop-Guarded fuel (suc page) p.total grown h')

  module _ (c : AccountContext) (settings : Settings) (session_id : ℕ) where
    pub Guarded-visible_departments :
        Guarded host c (IndexVisible host c) (visible_departments host settings session_id)
    unfolding visible_departments
    Guarded-visible_departments =
        Guarded-bind host c (departments host session_id) _ (Guarded-departments host c session_id)
          λ rows v.
            Guarded-lift host c (index_rows host rows)
              λ index e. index_rows-IndexVisible host c rows index v e

    Guarded-employees :
        (fuel : ℕ) (department_id search : Option String) (include_inactive : Bool)
        → Guarded host c
            (IsDirectory host c department_id settings.analytics_max_employees)
            (employees host settings session_id fuel department_id search include_inactive)
    unfolding employees contains
    Guarded-employees fuel department_id search include_inactive =
        let nobody = λ (complete : Bool).
          Guarded-pure host c
            {Q = IsDirectory host c department_id settings.analytics_max_employees}
            ([], complete, 0, 0) (record { all_shown = tt; distinct = tt; within = omega arith }) in
        Guarded-bind host c (visible_departments host settings session_id) _
          Guarded-visible_departments
          λ visible sees.
            Guarded-if host c
              (given department_id && not (is_some (indexed_by department_id visible))) _ _
              (λ hidden. nobody false)
              λ in_sight.
                Guarded-bind host c (context host session_id) _ (Guarded-context host c session_id)
                  λ d e.
                    Guarded-if host c (not (is_admin d) && not (any (λ x. true) d.department_ids)) _
                      _ (λ lone. nobody true)
                      λ member.
                        loop-Guarded c visible department_id sees settings session_id search
                          include_inactive fuel 1 0 (record { rows = []; seen = []; excluded = 0 })
                          (record { all_shown = tt; distinct = tt; covered = λ x h. refl })

    -- The employees that a tool call of the account goes on with, for an admin as for a member of some
    -- departments: each has a name that is not blank and stands in a department that the account may
    -- see, the one asked for if one was; no id stands twice, and there are at most
    -- `analytics_max_employees`. That is so whatever OKK answers.
    pub employees-IsDirectory :
        (fuel : ℕ) (department_id search : Option String) (include_inactive : Bool)
        (s : AdapterState) (out : Employees)
        → IsScoped host c s
        → (employees host settings session_id fuel department_id search include_inactive s).0
          ≡ ok out
        → IsDirectory host c department_id settings.analytics_max_employees out
    employees-IsDirectory fuel department_id search include_inactive s out scoped e =
        ((Guarded-employees fuel department_id search include_inactive).at s scoped).1 out e
