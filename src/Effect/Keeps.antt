-- ===== src/Effect/Keeps.antt =====
-- Invariants of the grants: what an action keeps, one rule for each way to build an action.
use native.Mathlib.Nat.{le_refl, le_trans}
use okk_analytics_codex_plug.Common.{
  ℕ, ◌≤◌, ◌≡◌, refl, sym, subst, Bool, true, false, if◌then◌else◌,
}
use okk_analytics_codex_plug.Errors.{Exc, Result, ok, raised}
use okk_analytics_codex_plug.Effect.{
  World, Action, Grants, grants, pure, raise, continue, ◌>>=◌, ◌>>◌, try, handled,
}
use okk_analytics_codex_plug.Effect.Preserves.{Preserves}

-- Whether `m` returns or raises, from the draw `k` of the random source on it keeps `Q` of the
-- clients, codes and tokens.
pub record Keeps {ℓ κ} {A : Type κ} (k : ℕ) (Q : Grants → Type ℓ) (m : Action A) : Type ℓ where
  pub at : (w : World) → k ≤ w.draws → Q (grants w) → Q (grants (m w).1) × (w.draws ≤ (m w).1.draws)

chain {ℓ} :
    {P R : Type ℓ} {d m n o : ℕ} → P × (m ≤ n) → (d ≤ n → P → R × (n ≤ o)) → d ≤ m → R × (m ≤ o)
chain {n = n} (p, le) f b = let (r, le') = f (le_trans b le) p in (r, le_trans le le')

module _ {ℓ κ} {A : Type κ} {d : ℕ} {Q : Grants → Type ℓ} where
  pub Keeps-pure : (a : A) → Keeps d Q (pure a)
  Keeps-pure a = record { at = λ w b h. (h, le_refl w.draws) }

  pub Keeps-raise : (e : Exc) → Keeps d Q (raise {A = A} e)
  Keeps-raise e = record { at = λ w b h. (h, le_refl w.draws) }

  pub Keeps-frame : (m : Action A) → Preserves grants m → Keeps d Q m
  Keeps-frame m p = record { at = λ w b h. (subst Q (sym (p.at w)) h, p.grows w) }

  pub Keeps-if :
      (b : Bool) (m n : Action A)
      → (b ≡ true → Keeps d Q m)
      → (b ≡ false → Keeps d Q n)
      → Keeps d Q (if b then m else n)
  Keeps-if true m n km kn = km refl
  Keeps-if false m n km kn = kn refl

  Keeps-handled :
      (r : Result A) (h : Exc → Action A) → ((e : Exc) → Keeps d Q (h e)) → Keeps d Q (handled r h)
  Keeps-handled (ok a) h k = record { at = λ w b q. (q, le_refl w.draws) }
  Keeps-handled (raised e) h k = k e

  pub Keeps-try :
      (m : Action A) (h : Exc → Action A)
      → Keeps d Q m
      → ((e : Exc) → Keeps d Q (h e))
      → Keeps d Q (try m h)
  Keeps-try m h km kh = record {
    at = λ w b q. chain (km.at w b q) ((Keeps-handled (m w).0 h kh).at (m w).1) b;
  }

module _ {ℓ κ υ} {A : Type κ} {B : Type υ} {d : ℕ} {Q : Grants → Type ℓ} where
  Keeps-continue :
      (r : Result A) (k : A → Action B) → ((a : A) → Keeps d Q (k a)) → Keeps d Q (continue r k)
  Keeps-continue (ok a) k h = h a
  Keeps-continue (raised e) k h = record { at = λ w b q. (q, le_refl w.draws) }

  pub Keeps-bind :
      (m : Action A) (k : A → Action B)
      → Keeps d Q m
      → ((a : A) → Keeps d Q (k a))
      → Keeps d Q (m >>= k)
  Keeps-bind m k km kk = record {
    at = λ w b q. chain (km.at w b q) ((Keeps-continue (m w).0 k kk).at (m w).1) b;
  }

  pub Keeps-then : (m : Action A) (n : Action B) → Keeps d Q m → Keeps d Q n → Keeps d Q (m >> n)
  Keeps-then m n km kn = Keeps-bind m (λ _. n) km (λ _. kn)

pub ruleset keeps_rules = (Keeps-pure, Keeps-raise, Keeps-if, Keeps-bind, Keeps-then, Keeps-try)
