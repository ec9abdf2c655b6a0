-- ===== src/Client/Bounded.antt =====
-- How many tool calls of one connection pass `_count_tool_call` in a minute
-- (server/okk_mcp/backend_client.py).
use okk_analytics_codex_plug.Common.{
  ℕ, suc, ◌+◌, ◌-◌, ◌≤◌, ◌/◌, ◌≡◌, subst, String, List, [], ◌∷◌, str_eq, eq_iff, Bool-cases, inl,
  inr, arith, if◌then◌else◌,
}
use okk_analytics_codex_plug.Errors.{Result, ok, raised}
use okk_analytics_codex_plug.Effect.{Host}
use okk_analytics_codex_plug.Oauth.Types.{Settings}
use okk_analytics_codex_plug.Client.Limit.{Redis, limit_key, checked_count, count_tool_call}

-- the calls of a connection, with the second of each
abbrev pub Calls : Type 0
Calls = List (String × ℕ)

abbrev pub passed : {A : Type 0} → Result A → ℕ
passed (ok a) = 1
passed (raised e) = 0

fewer : (a b limit later : ℕ) → a ≤ b → later ≤ limit - b → later ≤ limit - a
fewer a b limit later h k = omega (arith, h, k)

module _ (host : Host) (settings : Settings) (redis : Redis) where
  -- how many of the calls that count on a key pass, one after the other
  unfoldable pub admitted_calls : String → Calls → redis.State → ℕ
  unfolding count_tool_call limit_key
  admitted_calls key [] s = 0
  admitted_calls key ((subject, seconds) ∷ rest) s =
      let outcome = count_tool_call host settings redis subject seconds s in
      let later = admitted_calls key rest outcome.1 in
      if str_eq (limit_key host subject (seconds / 60)) key then passed outcome.0 + later else later

  -- Redis answers every call.
  abbrev pub IsUp : Type 0
  IsUp =
      (key : String) (s : redis.State)
      → (n : ℕ) × (t : redis.State) × (redis.incr key s ≡ (ok n, t))

  abbrev limit : ℕ
  limit = settings.mcp_tool_calls_per_minute

  module _ (up : IsUp) (key : String) where
    one_more :
        (n c d later seconds : ℕ)
        → n ≡ suc c
        → d ≡ n
        → later ≤ limit - d
        → passed (checked_count host settings redis seconds (ok n)) + later ≤ limit - c
    unfolding checked_count
    one_more n c d later seconds a b h = ground (arith, a, b, h)

    counted :
        (k : String) (s t : redis.State) (n : ℕ)
        → k ≡ key
        → redis.incr k s ≡ (ok n, t)
        → (n ≡ suc (redis.count key s)) × (redis.count key t ≡ n)
    counted k s t n e h = redis.counts key s t n (subst (λ j. redis.incr j s ≡ (ok n, t)) e h)

    -- one call, whatever follows it
    step :
        (k : String) (seconds : ℕ) (s : redis.State) (later : redis.State → ℕ)
        → ((t : redis.State) → later t ≤ limit - redis.count key t)
        → (if str_eq k key
            then passed (checked_count host settings redis seconds (redis.incr k s).0)
              + later (redis.incr k s).1
            else later (redis.incr k s).1)
          ≤ limit - redis.count key s
    step k seconds s later h =
        let (n, t, e) = up k s in
        elim (Bool-cases (str_eq k key)) [
          | inl same ↦
              let (a, b) = counted k s t n ((eq_iff k key).0 same) e in
              rw (same, e)
                (one_more n (redis.count key s) (redis.count key t) (later t) seconds a b (h t))
          | inr other ↦ rw other (fewer _ _ limit _ (redis.grows k key s) (h (redis.incr k s).1))
        ]

    -- Where Redis answers, at most `mcp_tool_calls_per_minute` of the calls that count on one key pass,
    -- less those that were counted before, in whatever order calls of this and other connections and
    -- minutes come. A connection has one key in a minute.
    pub admitted_calls_bound :
        (calls : Calls) (s : redis.State) → admitted_calls key calls s ≤ limit - redis.count key s
    unfolding admitted_calls count_tool_call
    admitted_calls_bound [] s = omega arith
    admitted_calls_bound ((subject, seconds) ∷ rest) s =
        step (limit_key host subject (seconds / 60)) seconds s (admitted_calls key rest)
          (admitted_calls_bound rest)
