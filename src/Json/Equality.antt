-- ===== src/Json/Equality.antt =====
-- `==` of JSON values, and the keys of a dict after `row[k] = v`.
use okk_analytics_codex_plug.Common.{
  ℕ, ◌≡◌, refl, ap, subst, String, Bool, true, false, ◌&&◌, some, Bool-cases, inl, inr, str_eq,
  eq_iff, ◌==◌, if◌then◌else◌,
}
use okk_analytics_codex_plug.Json.{
  Json, null, boolean, number, decimal, text, array, object, Items, no_items, item, Row, no_fields,
  field, field_count, lookup, get, has, set,
}

abbrev as_number : Bool → ℕ
as_number true = 1
as_number false = 0

-- Python's `True == 1` included; dicts are compared without their order.
unfoldable mutual
  unfolding has get

  pub same : Json → Json → Bool
  same null null = true
  same (boolean a) (boolean b) = as_number a == as_number b
  same (boolean a) (number n) = as_number a == n
  same (number n) (boolean b) = n == as_number b
  same (number n) (number m) = n == m
  same (decimal s) (decimal t) = str_eq s t
  same (text s) (text t) = str_eq s t
  same (array a) (array b) = same_items a b
  same (object a) (object b) = field_count a == field_count b && within a b
  same _ _ = false

  same_items : Items → Items → Bool
  same_items no_items no_items = true
  same_items (item v a) (item w b) = same v w && same_items a b
  same_items _ _ = false

  within : Row → Row → Bool
  within no_fields b = true
  within (field k v a) b = has k b && same v (get k b) && within a b

pub same-text : (v : Json) (s : String) → same v (text s) ≡ true → v ≡ text s
unfolding same
same-text (text t) s h = ap text ((eq_iff t s).0 h)
same-text null s h = cc
same-text (boolean b) s h = cc
same-text (number n) s h = cc
same-text (decimal t) s h = cc
same-text (array a) s h = cc
same-text (object a) s h = cc

-- a key that is set has the value
pub lookup-set : (k : String) (v : Json) (row : Row) → lookup k (set k v row) ≡ some v
unfolding lookup set
lookup-set k v no_fields = rw ((eq_iff k k).1 refl) refl
lookup-set k v (field j u rest) = elim (Bool-cases (str_eq k j)) [
  | inl e ↦ rw (e, e) refl
  | inr e ↦ rw (e, e) (lookup-set k v rest)
]

-- the other keys keep theirs
pub lookup-set_other :
    (k j : String) (v : Json) (row : Row)
    → str_eq k j ≡ false
    → lookup k (set j v row) ≡ lookup k row
unfolding lookup set
lookup-set_other k j v no_fields e = rw e refl
lookup-set_other k j v (field i u rest) e = elim (Bool-cases (str_eq j i)) [
  | inl d ↦
      let other : str_eq k i ≡ false = subst (λ x. str_eq k x ≡ false) ((eq_iff j i).0 d) e in
      rw (d, other) refl
  | inr d ↦ rw d (ap (λ o. if str_eq k i then some u else o) (lookup-set_other k j v rest e))
]
