-- ===== src/Effect/Outcomes.antt =====
-- What a successful outcome says of the parts of an action.
use okk_analytics_codex_plug.Common.{
  ◌≡◌, ◌≢◌, refl, ◌⊎◌, inl, inr, Bool, true, false, if◌then◌else◌,
}
use okk_analytics_codex_plug.Errors
use okk_analytics_codex_plug.Errors.{Exc, Result, ok, raised}
use okk_analytics_codex_plug.Effect.{Stateful, continue, ◌>>=◌}

continued {ℓ κ} :
    {S : Type 0} {A : Type ℓ} {B : Type κ} (r : Result A) (k : A → Stateful S B) (w : S) (b : B)
    → (continue r k w).0 ≡ ok b
    → (a : A) × (r ≡ ok a) × ((k a w).0 ≡ ok b)
continued (ok a) k w b h = (a, refl, h)
continued (raised e) k w b h = cc

-- A sequence that returns: its first part returned a value, with which the second one returned.
pub bind-ok {ℓ κ} :
    {S : Type 0} {A : Type ℓ} {B : Type κ} (m : Stateful S A) (k : A → Stateful S B) (w : S) (b : B)
    → ((m >>= k) w).0 ≡ ok b
    → (a : A) × ((m w).0 ≡ ok a) × ((k a (m w).1).0 ≡ ok b)
bind-ok m k w b h = continued (m w).0 k (m w).1 b h

pub not_ok : {A : Type 0} {e : Exc} {x : A} → raised e ≢ ok x
not_ok h = cc

pub ok_injective : {A : Type 0} {x y : A} → ok x ≡ ok y → x ≡ y
ok_injective h = cc

-- the same of results
pub result_bind-ok {ℓ κ} :
    {A : Type ℓ} {B : Type κ} (m : Result A) (k : A → Result B) (b : B)
    → Errors.◌>>=◌ m k ≡ ok b
    → (a : A) × (m ≡ ok a) × (k a ≡ ok b)
result_bind-ok (ok a) k b h = (a, refl, h)
result_bind-ok (raised e) k b h = cc

continued-run {ℓ κ} :
    {S : Type 0} {A : Type ℓ} {B : Type κ} (out : Result A × S) (k : A → Stateful S B) (t : S)
    (b : B)
    → continue out.0 k out.1 ≡ (ok b, t)
    → (a : A) × (u : S) × (out ≡ (ok a, u)) × (k a u ≡ (ok b, t))
continued-run (ok a, u) k t b h = (a, u, refl, h)
continued-run (raised e, u) k t b h = cc

-- the same with the states
pub bind-run {ℓ κ} :
    {S : Type 0} {A : Type ℓ} {B : Type κ} (m : Stateful S A) (k : A → Stateful S B) (s t : S)
    (b : B)
    → (m >>= k) s ≡ (ok b, t)
    → (a : A) × (u : S) × (m s ≡ (ok a, u)) × (k a u ≡ (ok b, t))
bind-run m k s t b h = continued-run (m s) k t b h

pub same_outcome {ℓ} :
    {S : Type 0} {A : Type ℓ} {a b : A} {s t : S}
    → ◌≡◌ {A = Result A × S} (ok a, s) (ok b, t)
    → (a ≡ b) × (s ≡ t)
same_outcome h = (cc, cc)

-- The branch that a test took.
pub branches :
    {S A : Type 0} (b : Bool) (m n : Stateful S A) (s : S) (a : A)
    → ((if b then m else n) s).0 ≡ ok a
    → ((b ≡ true) × ((m s).0 ≡ ok a)) ⊎ ((b ≡ false) × ((n s).0 ≡ ok a))
branches true m n s a h = inl (refl, h)
branches false m n s a h = inr (refl, h)
