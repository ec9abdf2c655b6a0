-- ===== src/Analytics/Journal/Total.antt =====
-- The loop of `_journal_pages` in server/okk_mcp/backend_client.py ends.
use okk_analytics_codex_plug.Common.{
  ℕ, zero, suc, ◌+◌, ◌≤◌, ◌<◌, ◌≡◌, refl, String, Bool, false, List, [], leb, Bool-cases, inl, inr,
  arith, if◌then◌else◌,
}
use okk_analytics_codex_plug.Json.{Json, Row}
use okk_analytics_codex_plug.Errors.{ok}
use okk_analytics_codex_plug.Effect.{Host, pure}
use okk_analytics_codex_plug.Analytics.Adapter.{AdapterState, Call}
use okk_analytics_codex_plug.Analytics.Journal.{
  Page, Journal, read_page, journal_loop, journal_pages,
}

abbrev pub Returns {ℓ} : {A : Type ℓ} → Call A → AdapterState → Type ℓ
Returns {A = A} m s = (a : A) × (u : AdapterState) × (m s ≡ (ok a, u))

-- From a state with `Live`, OKK answers any page that is asked for, names at most `bound` of them, and
-- the state that the read leaves has `Live` again.
abbrev pub Answers : Host → (ℕ → Call Json) → (AdapterState → Type 0) → ℕ → Type 0
Answers host fetch Live bound =
    (n : ℕ) (s : AdapterState)
    → Live s
    → (p : Page) × (t : AdapterState) × (read_page host fetch n s ≡ (ok p, t))
      × (p.pages ≤ bound)
      × Live t

-- a page that is not the last one leaves a round
more_fuel :
    (n pages fuel bound : ℕ) → leb pages n ≡ false → pages ≤ bound → bound < n + suc fuel → 1 ≤ fuel
more_fuel n pages fuel bound h k l = ground arith

module _ (host : Host) (fetch : ℕ → Call Json) (cap bound : ℕ) (Live : AdapterState → Type 0)
    (answers : Answers host fetch Live bound) where
  either :
      (b c : Bool) (x y : Journal) (next : Call Journal) (t : AdapterState)
      → (b ≡ false → c ≡ false → Returns next t)
      → Returns (if b then pure x else if c then pure y else next) t
  either b c x y next t go = elim (Bool-cases b) [
    | inl e ↦ rw e (x, t, refl)
    | inr e ↦ elim (Bool-cases c) [ inl k ↦ rw (e, k) (y, t, refl) | inr k ↦ rw (e, k) (go e k) ]
  ]

  loop-Returns :
      (fuel n : ℕ) (rows : List Row) (seen : List String) (s : AdapterState)
      → 1 ≤ fuel
      → bound < n + fuel
      → Live s
      → Returns (journal_loop host fetch cap fuel n rows seen) s
  unfolding journal_loop
  loop-Returns zero n rows seen s h k live = absurd (omega (arith, h))
  loop-Returns (suc fuel) n rows seen s h k live =
      let (p, t, read, small, still) = answers n s live in
      rw read (
        either _ _ _ _ _ t λ e c.
          loop-Returns fuel (suc n) _ _ t (more_fuel n p.pages fuel bound c small k)
            (omega (arith, k)) still)

  -- Where OKK answers every page that is asked for, names at most `bound` pages and leaves the account
  -- live, the loop returns a journal within `bound + 1` rounds, from any live state.
  pub journal_pages-Returns :
      (fuel : ℕ) (s : AdapterState)
      → bound < fuel
      → Live s
      → Returns (journal_pages host fetch cap fuel) s
  unfolding journal_pages
  journal_pages-Returns fuel s h live =
      loop-Returns fuel 1 [] [] s (omega (arith, h)) (omega (arith, h)) live
