-- ===== src/Analytics/Guarded.antt =====
-- What every run of an adapter's method keeps, and what it may return: one rule for each way to build a
-- method (server/okk_mcp/backend_client.py).
use okk_analytics_codex_plug.Common.{
  ◌≡◌, refl, subst, String, Bool, true, false, Option, none, some, List, contains, All,
  if◌then◌else◌,
}
use okk_analytics_codex_plug.Errors.{Exc, Result, ok, raised}
use okk_analytics_codex_plug.Effect.Outcomes.{not_ok, ok_injective}
use okk_analytics_codex_plug.Json.{Row}
use okk_analytics_codex_plug.Effect.{
  Host, Action, pure, raise, lift, gets, modify, continue, ◌>>=◌, settle, handled, try,
}
use okk_analytics_codex_plug.Platform.Context.{AccountContext}
use okk_analytics_codex_plug.Analytics.Adapter.{AdapterState, Call, act, is_admin}
use okk_analytics_codex_plug.Analytics.Journal.{id_of}

module _ (host : Host) (c : AccountContext) where
  -- the id is one of the account's departments, or the account is an admin's
  abbrev pub MaySee : String → Type 0
  MaySee id = is_admin c ≡ false → contains id c.department_ids ≡ true

  abbrev pub AllVisible : List Row → Type 0
  AllVisible = All (λ row. MaySee (id_of host row))

  abbrev pub Known : Option (List Row) → Type 0
  Known none = Unit
  Known (some rows) = AllVisible rows

  -- The adapter works for the account, and remembers no department that the account may not see.
  abbrev pub IsScoped : AdapterState → Type 0
  IsScoped s = (s.context ≡ some c) × Known s.departments

  -- Whether the method returns or raises, the adapter stays scoped; what it returns satisfies `Q`.
  pub record Guarded {A : Type 0} (Q : A → Type 0) (m : Call A) : Type 0 where
    pub at : (s : AdapterState) → IsScoped s → IsScoped (m s).1 × ((b : A) → (m s).0 ≡ ok b → Q b)

  module _ {A : Type 0} {Q : A → Type 0} where
    pub Guarded-pure : (a : A) → Q a → Guarded Q (pure a)
    Guarded-pure a q = record { at = λ s h. (h, λ b e. subst Q (ok_injective e) q) }

    pub Guarded-raise : (e : Exc) → Guarded Q (raise e)
    Guarded-raise e = record { at = λ s h. (h, λ b k. absurd (not_ok k)) }

    pub Guarded-lift : (r : Result A) → ((b : A) → r ≡ ok b → Q b) → Guarded Q (lift r)
    Guarded-lift r q = record { at = λ s h. (h, q) }

    pub Guarded-gets :
        (f : AdapterState → A) → ((s : AdapterState) → IsScoped s → Q (f s)) → Guarded Q (gets f)
    Guarded-gets f q = record { at = λ s h. (h, λ b e. subst Q (ok_injective e) (q s h)) }

    pub Guarded-if :
        (b : Bool) (m n : Call A)
        → (b ≡ true → Guarded Q m)
        → (b ≡ false → Guarded Q n)
        → Guarded Q (if b then m else n)
    Guarded-if true m n gm gn = gm refl
    Guarded-if false m n gm gn = gn refl

    pub Guarded-weaken :
        {P : A → Type 0} (m : Call A) → Guarded P m → ((a : A) → P a → Q a) → Guarded Q m
    Guarded-weaken m g f = record { at = λ s h. ((g.at s h).0, λ b e. f b ((g.at s h).1 b e)) }

  module _ {A : Type 0} {Q : A → Type 0} where
    Guarded-handled :
        (r : Result A) (h : Exc → Call A) (s : AdapterState)
        → IsScoped s
        → ((b : A) → r ≡ ok b → Q b)
        → ((e : Exc) → Guarded Q (h e))
        → IsScoped (handled r h s).1 × ((b : A) → (handled r h s).0 ≡ ok b → Q b)
    Guarded-handled (ok a) h s k q g = (k, q)
    Guarded-handled (raised e) h s k q g = (g e).at s k

    pub Guarded-try :
        (m : Call A) (h : Exc → Call A)
        → Guarded Q m
        → ((e : Exc) → Guarded Q (h e))
        → Guarded Q (try m h)
    Guarded-try m h gm gh = record {
      at = λ s k. let (scoped, q) = gm.at s k in Guarded-handled (m s).0 h (m s).1 scoped q gh;
    }

  -- the platform client changes neither the account nor the catalogs
  pub Guarded-act : {A : Type 0} (m : Action A) → Guarded (λ a. Unit) (act m)
  Guarded-act m = record { at = λ s h. (h, λ b e. tt) }

  pub Guarded-modify :
      (f : AdapterState → AdapterState)
      → ((s : AdapterState) → IsScoped s → IsScoped (f s))
      → Guarded (λ u. Unit) (modify f)
  Guarded-modify f keeps = record { at = λ s h. (keeps s h, λ b e. tt) }

  module _ {A B : Type 0} {Q : B → Type 0} where
    Guarded-continue :
        {P : A → Type 0} (r : Result A) (k : A → Call B) (s : AdapterState)
        → IsScoped s
        → ((a : A) → r ≡ ok a → P a)
        → ((a : A) → P a → Guarded Q (k a))
        → IsScoped (continue r k s).1 × ((b : B) → (continue r k s).0 ≡ ok b → Q b)
    Guarded-continue (ok a) k s h p g = (g a (p a refl)).at s h
    Guarded-continue (raised e) k s h p g = (h, λ b i. absurd (not_ok i))

    pub Guarded-bind :
        {P : A → Type 0} (m : Call A) (k : A → Call B)
        → Guarded P m
        → ((a : A) → P a → Guarded Q (k a))
        → Guarded Q (m >>= k)
    Guarded-bind m k gm gk = record {
      at = λ s h. let (scoped, p) = gm.at s h in Guarded-continue (m s).0 k (m s).1 scoped p gk;
    }

    pub Guarded-settle :
        {P : A → Type 0} (m : Call A) (k : Result A → Call B)
        → Guarded P m
        → ((r : Result A) → Guarded Q (k r))
        → Guarded Q (settle m k)
    Guarded-settle m k gm gk = record {
      at = λ s h. let (scoped, p) = gm.at s h in (gk (m s).0).at (m s).1 scoped;
    }
