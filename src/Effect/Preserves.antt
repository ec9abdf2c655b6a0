-- ===== src/Effect/Preserves.antt =====
-- Actions that leave a view of the world alone, one rule for each way to build an action.
use native.Mathlib.Nat.{le_refl, le_trans}
use okk_analytics_codex_plug.Common.{◌≤◌, ◌≡◌, refl, ◌∙◌, Bool, true, false, if◌then◌else◌}
use okk_analytics_codex_plug.Errors.{Exc, Result, ok, raised}
use okk_analytics_codex_plug.Effect.{
  World, Action, pure, raise, lift, gets, continue, ◌>>=◌, ◌>>◌, try, handled, settle,
}

-- Whether `m` returns or raises, the view `f` of the world is what it was, and no draw of the
-- random source is taken back.
pub record Preserves {ℓ κ} {V : Type ℓ} {A : Type κ} (f : World → V) (m : Action A) : Type ℓ where
  pub at : (w : World) → f (m w).1 ≡ f w
  pub grows : (w : World) → w.draws ≤ (m w).1.draws

module _ {ℓ κ} {V : Type ℓ} {A : Type κ} {f : World → V} where
  pub Preserves-pure : (a : A) → Preserves f (pure a)
  Preserves-pure a = record { at = λ w. refl; grows = λ w. le_refl w.draws }

  pub Preserves-raise : (e : Exc) → Preserves f (raise {A = A} e)
  Preserves-raise e = record { at = λ w. refl; grows = λ w. le_refl w.draws }

  pub Preserves-lift : (r : Result A) → Preserves f (lift r)
  Preserves-lift r = record { at = λ w. refl; grows = λ w. le_refl w.draws }

  pub Preserves-gets : (g : World → A) → Preserves f (gets g)
  Preserves-gets g = record { at = λ w. refl; grows = λ w. le_refl w.draws }

  pub Preserves-if :
      (b : Bool) (m n : Action A) → Preserves f m → Preserves f n → Preserves f (if b then m else n)
  Preserves-if true m n km kn = km
  Preserves-if false m n km kn = kn

module _ {ℓ κ} {V : Type ℓ} {A : Type κ} {f : World → V} where
  Preserves-handled :
      (r : Result A) (h : Exc → Action A)
      → ((e : Exc) → Preserves f (h e))
      → Preserves f (handled r h)
  Preserves-handled (ok a) h k = record { at = λ w. refl; grows = λ w. le_refl w.draws }
  Preserves-handled (raised e) h k = k e

  pub Preserves-try :
      (m : Action A) (h : Exc → Action A)
      → Preserves f m
      → ((e : Exc) → Preserves f (h e))
      → Preserves f (try m h)
  Preserves-try m h hm hh = record {
    at = λ w. (Preserves-handled (m w).0 h hh).at (m w).1 ∙ hm.at w;
    grows = λ w. le_trans (hm.grows w) ((Preserves-handled (m w).0 h hh).grows (m w).1);
  }

module _ {ℓ κ υ} {V : Type ℓ} {A : Type κ} {B : Type υ} {f : World → V} where
  pub Preserves-continue :
      (r : Result A) (k : A → Action B) → ((a : A) → Preserves f (k a)) → Preserves f (continue r k)
  Preserves-continue (ok a) k h = h a
  Preserves-continue (raised e) k h = record { at = λ w. refl; grows = λ w. le_refl w.draws }

  pub Preserves-bind :
      (m : Action A) (k : A → Action B)
      → Preserves f m
      → ((a : A) → Preserves f (k a))
      → Preserves f (m >>= k)
  Preserves-bind m k hm hk = record {
    at = λ w. (Preserves-continue (m w).0 k hk).at (m w).1 ∙ hm.at w;
    grows = λ w. le_trans (hm.grows w) ((Preserves-continue (m w).0 k hk).grows (m w).1);
  }

  pub Preserves-then :
      (m : Action A) (n : Action B) → Preserves f m → Preserves f n → Preserves f (m >> n)
  Preserves-then m n hm hn = Preserves-bind m (λ _. n) hm (λ _. hn)

module _ {ℓ κ υ} {V : Type ℓ} {A : Type κ} {B : Type υ} {f : World → V} where
  pub Preserves-settle :
      (m : Action A) (k : Result A → Action B)
      → Preserves f m
      → ((r : Result A) → Preserves f (k r))
      → Preserves f (settle m k)
  Preserves-settle m k hm hk = record {
    at = λ w. (hk (m w).0).at (m w).1 ∙ hm.at w;
    grows = λ w. le_trans (hm.grows w) ((hk (m w).0).grows (m w).1);
  }

pub ruleset preserve_rules = (
  Preserves-pure, Preserves-raise, Preserves-lift, Preserves-gets, Preserves-if, Preserves-bind,
  Preserves-then, Preserves-try, Preserves-settle,
)
