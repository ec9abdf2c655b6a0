-- ===== src/Analytics/Rosters/Items.antt =====
-- The items of one directory page that `employees` of server/okk_mcp/backend_client.py goes on with.
use okk_analytics_codex_plug.Common.{
  ◌≡◌, refl, String, false, Bool-cases, Option, none, some, List, [], ◌∷◌, ◌++◌, All-append,
  contains, contains-append, str_eq, inl, inr, arith,
}
use mathlib.Core.List.{map-append}
use okk_analytics_codex_plug.Json.{Row}
use okk_analytics_codex_plug.Effect.{Host}
use okk_analytics_codex_plug.Platform.Context.{AccountContext}
use okk_analytics_codex_plug.Analytics.Journal.{id_of}
use okk_analytics_codex_plug.Analytics.Journal.Distinct.{ids, flip, IsDistinct}
use okk_analytics_codex_plug.Analytics.Employees.{Index, admitted, Roster, counted, collect}
use okk_analytics_codex_plug.Analytics.Rosters.{IndexVisible, IsShown, IsRoster, admitted-IsShown}

missing_behind :
    (x y : String) (xs : List String)
    → contains x xs ≡ false
    → str_eq x y ≡ false
    → contains x (xs ++ (y ∷ [])) ≡ false
unfolding contains
missing_behind x y xs h k = rw (contains-append x xs (y ∷ []), h, k)

differ : (x y : String) → str_eq y x ≡ false → str_eq x y ≡ false
differ x y h = elim (Bool-cases (str_eq x y)) [ inl e ↦ cc (flip x y e) | inr e ↦ e ]

head_differs : (x y : String) (xs : List String) → contains x (y ∷ xs) ≡ false → str_eq x y ≡ false
unfolding contains
head_differs x y xs h = ground (arith, h)

tail_misses :
    (x y : String) (xs : List String) → contains x (y ∷ xs) ≡ false → contains x xs ≡ false
unfolding contains
tail_misses x y xs h = ground (arith, h)

module _ (host : Host) where
  append-IsDistinct :
      (rows : List Row) (row : Row)
      → IsDistinct host rows
      → contains (id_of host row) (ids host rows) ≡ false
      → IsDistinct host (rows ++ (row ∷ []))
  unfolding contains
  append-IsDistinct [] row h k = (refl, tt)
  append-IsDistinct (r ∷ rows) row h k = (
    rw (map-append (id_of host) rows (row ∷ [])) (
        missing_behind (id_of host r) (id_of host row) (ids host rows) h.0 (
          differ (id_of host r) (id_of host row)
            (head_differs (id_of host row) (id_of host r) (ids host rows) k))),
    append-IsDistinct rows row h.1 (tail_misses (id_of host row) (id_of host r) (ids host rows) k),
  )

  module _ (c : AccountContext) (visible : Index) (department_id : Option String)
      (sees : IndexVisible host c visible) where
    grown :
        (r : Roster) (item row : Row)
        → IsRoster host c department_id r
        → IsShown host c department_id row
          × (id_of host row ≡ id_of host item)
          × (contains (id_of host item) r.seen ≡ false)
        → IsRoster host c department_id (record {
          rows = r.rows ++ (row ∷ []);
          seen = id_of host item ∷ r.seen;
          excluded = r.excluded;
        })
    unfolding contains
    grown r item row h (shown, same, unseen) = record {
      all_shown =
          All-append (IsShown host c department_id) r.rows (row ∷ []) h.all_shown (shown, tt);
      distinct =
          append-IsDistinct r.rows row h.distinct (rw same (h.covered (id_of host item) unseen));
      covered = λ x k. rw (map-append (id_of host) r.rows (row ∷ [])) (
          missing_behind x (id_of host row) (ids host r.rows)
            (h.covered x (tail_misses x (id_of host item) r.seen k))
            (rw same (head_differs x (id_of host item) r.seen k)));
    }

    counted-IsRoster :
        (r : Roster) (item : Row) (o : Option Row)
        → IsRoster host c department_id r
        → admitted host visible department_id r.seen item ≡ o
        → IsRoster host c department_id (counted host o item r)
    counted-IsRoster r item none h e = record {
      all_shown = h.all_shown;
      distinct = h.distinct;
      covered = h.covered;
    }
    counted-IsRoster r item (some row) h e =
        grown r item row h (admitted-IsShown host c visible department_id r.seen item row sees e)

    pub collect-IsRoster :
        (found : List Row) (r : Roster)
        → IsRoster host c department_id r
        → IsRoster host c department_id (collect host visible department_id found r)
    unfolding collect
    collect-IsRoster [] r h = h
    collect-IsRoster (item ∷ found) r h =
        collect-IsRoster found
          (counted host (admitted host visible department_id r.seen item) item r)
          (counted-IsRoster r item (admitted host visible department_id r.seen item) h refl)
