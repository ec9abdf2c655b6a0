-- ===== src/Analytics/Grounding/Kept.antt =====
-- What `_ground_employee_rows` of server/okk_mcp/backend_client.py keeps.
use okk_analytics_codex_plug.Common.{
  ℕ, suc, ◌≡◌, All, String, Bool, true, false, Option, none, some, List, [], ◌∷◌, str_eq,
}
use mathlib.Core.List.{Memᴰ}
use okk_analytics_codex_plug.Json.{Json, text, object, Row, get, truthy}
use okk_analytics_codex_plug.Effect.{Host}
use okk_analytics_codex_plug.Analytics.Journal.{id_of}
use okk_analytics_codex_plug.Analytics.Grounding.{employee_id_of}
use okk_analytics_codex_plug.Analytics.Grounding.Named.{IsNamed}
use okk_analytics_codex_plug.Analytics.Grounding.Rest.{KeepsRest}

-- an employee of the directory, with a name
abbrev pub HasName : Row → Type 0
HasName employee = (name : String) × (get "full_name" employee ≡ text name)

module _ (host : Host) where
  -- The given row is one of an employee of the list: of the one that its id fields name. What is kept of
  -- it names that employee as the list does, and has the other data of the given row.
  pub record IsGrounded (employees : List Row) (id_fields : List String) (given out : Row)
      : Type 0 where
    pub employee : Row
    pub listed : Memᴰ employee employees
    pub own_id : id_of host employee ≡ employee_id_of host id_fields given
    pub name : String
    pub directory_name : get "full_name" employee ≡ text name
    pub named : IsNamed (id_of host employee) name out
    pub keeps : KeepsRest given out

  -- no employee of the list has the id
  abbrev pub Unknown : List Row → String → Type 0
  Unknown employees id =
      All (λ e. truthy (get "id" e) ≡ true → str_eq id (id_of host e) ≡ false) employees

  -- The items of a list, what is kept of them in their order, and the number of those left out.
  pub data Grounds (employees : List Row) (id_fields : List String)
      : List Json → List Row → ℕ → Type 0 where
    nothing : Grounds employees id_fields [] [] 0
    kept :
        (given out : Row) {vs : List Json} {outs : List Row} {n : ℕ}
        → IsGrounded employees id_fields given out
        → Grounds employees id_fields vs outs n
        → Grounds employees id_fields (object given ∷ vs) (out ∷ outs) n
    -- an item that is no dict, or names no employee of the list, is left out
    left_out :
        (v : Json) {vs : List Json} {outs : List Row} {n : ℕ}
        → ((given : Row)
            → v ≡ object given
            → Unknown employees (employee_id_of host id_fields given))
        → Grounds employees id_fields vs outs n
        → Grounds employees id_fields (v ∷ vs) outs (suc n)

  abbrev Found : List Row → String → Row → Type 0
  Found employees id employee =
      Memᴰ employee employees × (id_of host employee ≡ id) × HasName employee

  -- what became of an item
  abbrev Became : List Row → List String → Json → Option (Row × Bool) → Type 0
  Became employees id_fields v none =
      (given : Row) → v ≡ object given → Unknown employees (employee_id_of host id_fields given)
  Became employees id_fields v (some (out, changed)) =
      (given : Row) × (v ≡ object given) × IsGrounded employees id_fields given out
