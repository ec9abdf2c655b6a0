-- ===== src/Analytics/Rosters.antt =====
-- The employee rows that a tool call may go on with (`employees` of server/okk_mcp/backend_client.py).
pub mod Items
pub mod Loop
use okk_analytics_codex_plug.Common.{
  ℕ, ◌≡◌, refl, sym, ◌∙◌, subst, ap, String, Bool, true, false, not, ◌&&◌, ◌||◌, Bool-cases, Option,
  none, some, Option-cases, ◌⊎◌, List, [], ◌∷◌, ◌++◌, All, All-append, contains, str_eq, eq_iff,
  inl, inr, arith, if◌then◌else◌,
}
use okk_analytics_codex_plug.Errors
use okk_analytics_codex_plug.Errors.{Result, ok}
use okk_analytics_codex_plug.Effect.Outcomes.{result_bind-ok, ok_injective}
use okk_analytics_codex_plug.Json.{Json, text, Row, get, lookup, set, has, truthy, opt_text}
use okk_analytics_codex_plug.Json.Spelling.{spell}
use okk_analytics_codex_plug.Effect.{Host}
use okk_analytics_codex_plug.Oauth.Types.{given, value}
use okk_analytics_codex_plug.Platform.Context.{AccountContext}
use okk_analytics_codex_plug.Analytics.Journal.{id_of, text_at}
use okk_analytics_codex_plug.Analytics.Journal.Distinct.{ids, IsDistinct}
use okk_analytics_codex_plug.Analytics.Guarded.{MaySee, AllVisible}
use okk_analytics_codex_plug.Analytics.Employees.{
  Index, last_of, indexed, indexed_by, index_rows, is_name, same_text, safe_employee,
  department_id_of, unfit, placed, with_department, admitted, Roster, collect,
}

last_of-some :
    (o : Option Row) (b : Bool) (first row : Row)
    → last_of o b first ≡ some row
    → (o ≡ some row) ⊎ (b ≡ true)
last_of-some (some later) b first row e = inl e
last_of-some none true first row e = inr refl
last_of-some none false first row e = cc

same_department :
    (own : String) (asked : Option String)
    → given asked ≡ true
    → (given asked && not (same_text (some own) asked)) ≡ false
    → own ≡ value asked
same_department own none g h = cc
same_department own (some d) g h = (eq_iff own d).0 (ground arith)

placed-some :
    (host : Host) (left_out : Bool) (item : Row) (o : Option Row) (row : Row)
    → placed host left_out item o ≡ some row
    → (department : Row) × (o ≡ some department)
      × (left_out ≡ false)
      × (row ≡ with_department host item department)
unfolding with_department
placed-some host left_out item none row e = cc
placed-some host true item (some department) row e = cc
placed-some host false item (some department) row e = (department, refl, refl, cc)

module _ (host : Host) (c : AccountContext) where
  abbrev pub IndexVisible : Index → Type 0
  IndexVisible = All (λ e. MaySee host c e.0)

  pub index_rows-IndexVisible :
      (rows : List Row) (index : Index)
      → AllVisible host c rows
      → index_rows host rows ≡ ok index
      → IndexVisible index
  unfolding index_rows
  index_rows-IndexVisible [] index h e = rw⁻¹ (ok_injective e) tt
  index_rows-IndexVisible (row ∷ rows) index h e = elim (Bool-cases (has "id" row)) [
    | inl known ↦
        let (rest, later, both) =
          result_bind-ok (index_rows host rows) (λ rest. ok ((id_of host row, row) ∷ rest)) index
            (rw known at e) in
        rw⁻¹ (ok_injective both) (h.0, index_rows-IndexVisible rows rest h.1 later)
    | inr unknown ↦ cc (rw unknown at e)
  ]

  pub indexed-MaySee :
      (id : String) (index : Index) (row : Row)
      → IndexVisible index
      → indexed id index ≡ some row
      → MaySee host c id
  unfolding indexed
  indexed-MaySee id [] row h e = cc
  indexed-MaySee id ((j, first) ∷ rest) row h e =
      elim (last_of-some (indexed id rest) (str_eq id j) first row e) [
        | inl later ↦ indexed-MaySee id rest row h.1 later
        | inr same ↦ subst (MaySee host c) (sym ((eq_iff id j).0 same)) h.0
      ]

  indexed_by-MaySee :
      (id : Option String) (index : Index) (row : Row)
      → IndexVisible index
      → indexed_by id index ≡ some row
      → (d : String) × (id ≡ some d) × MaySee host c d
  unfolding indexed
  indexed_by-MaySee none index row h e = cc
  indexed_by-MaySee (some id) index row h e = (id, refl, indexed-MaySee id index row h e)

  shown_department_id :
      (item department : Row)
      → get "department_id" (with_department host item department)
        ≡ opt_text (department_id_of host item)
  unfolding with_department get set lookup safe_employee
  shown_department_id item department = refl

  shown_name :
      (item department : Row)
      → get "full_name" (with_department host item department)
        ≡ get "full_name" (safe_employee host item)
  unfolding with_department get set lookup safe_employee
  shown_name item department = refl

  shown_id_of :
      (item department : Row) → id_of host (with_department host item department) ≡ id_of host item
  unfolding with_department get set lookup safe_employee text_at spell
  shown_id_of item department = refl

  -- A row that the account may be shown, in the department that is asked for, if one is.
  pub record IsShown (department_id : Option String) (row : Row) : Type 0 where
    pub own : String
    pub shown_id : get "department_id" row ≡ text own
    pub may_see : MaySee host c own
    pub asked : given department_id ≡ true → own ≡ value department_id
    pub named : is_name (get "full_name" row) ≡ true

  pub record IsRoster (department_id : Option String) (r : Roster) : Type 0 where
    pub all_shown : All (IsShown department_id) r.rows
    pub distinct : IsDistinct host r.rows
    pub covered : (x : String) → contains x r.seen ≡ false → contains x (ids host r.rows) ≡ false

  passed :
      (a b d e : Bool) → (not a || not b || d || e) ≡ false → (b ≡ true) × (d ≡ false) × (e ≡ false)
  passed a b d e h = ground arith

  admitted-IsShown :
      (visible : Index) (department_id : Option String) (seen : List String) (item row : Row)
      → IndexVisible visible
      → admitted host visible department_id seen item ≡ some row
      → IsShown department_id row
        × (id_of host row ≡ id_of host item)
        × (contains (id_of host item) seen ≡ false)
  unfolding admitted unfit
  admitted-IsShown visible department_id seen item row h e =
      let (department, found, fit, same) =
        placed-some host (unfit host department_id seen item) item
          (indexed_by (department_id_of host item) visible) row e in
      let (own, is_own, sees) =
        indexed_by-MaySee (department_id_of host item) visible department h found in
      let (name_fits, unseen, in_place) =
        passed (truthy (get "id" item)) (is_name (get "full_name" (safe_employee host item)))
          (contains (id_of host item) seen)
          (given department_id && not (same_text (department_id_of host item) department_id)) fit in
      rw same (
        record {
          own = own;
          shown_id = shown_department_id item department ∙ ap opt_text is_own;
          may_see = sees;
          asked = λ g. same_department own department_id g (rw is_own at in_place);
          named = rw (shown_name item department) name_fits;
        },
        shown_id_of item department,
        unseen,
      )
