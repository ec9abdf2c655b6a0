-- ===== src/Json/Projection.antt =====
-- What a projected dict holds.
use okk_analytics_codex_plug.Common.{
  ◌≡◌, refl, sym, subst, arith, String, true, ◌||◌, Option, none, some, List, [], ◌∷◌, str_eq,
  eq_iff, contains, if◌then◌else◌,
}
use okk_analytics_codex_plug.Json.{Json, Row, lookup, project, field_if}

renamed :
    (k j : String) (row : Row) (found : Option Json)
    → lookup j row ≡ found
    → str_eq k j ≡ true
    → lookup k row ≡ found
renamed k j row found h e = subst (λ x. lookup x row ≡ found) (sym ((eq_iff k j).0 e)) h

-- one key more
lookup-field_if :
    (k j : String) (names : List String) (row rest : Row) (found : Option Json)
    → lookup j row ≡ found
    → lookup k rest ≡ (if contains k names then lookup k row else none)
    → lookup k (field_if found j rest)
      ≡ (if str_eq k j || contains k names then lookup k row else none)
unfolding lookup
lookup-field_if k j names row rest none h later = ground (arith, later, renamed k j row none h)
lookup-field_if k j names row rest (some v) h later =
    ground (arith, later, renamed k j row (some v) h)

-- A projected dict has the chosen keys of the dict, with their values, and no other.
pub lookup-project :
    (k : String) (names : List String) (row : Row)
    → lookup k (project names row) ≡ (if contains k names then lookup k row else none)
unfolding lookup project contains
lookup-project k [] row = refl
lookup-project k (j ∷ names) row =
    lookup-field_if k j names row (project names row) (lookup j row) refl
      (lookup-project k names row)
