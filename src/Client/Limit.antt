-- ===== src/Client/Limit.antt =====
-- `_count_tool_call` of server/okk_mcp/backend_client.py: the tool calls of one connection in a minute.
use okk_analytics_codex_plug.Common.{ℕ, suc, ◌≤◌, ◌≡◌, ◌/◌, ◌%◌, ◌-◌, String, ltb, if◌then◌else◌}
use Prim.Native.String
use okk_analytics_codex_plug.Errors.{Result, ok, raised, tool_call_limited}
use okk_analytics_codex_plug.Json.Spelling.{show}
use okk_analytics_codex_plug.Effect.{Host, Stateful}
use okk_analytics_codex_plug.Oauth.Types.{Settings}
use okk_analytics_codex_plug.ClientMetadata.Slices.{slice}

-- What the code uses of Redis: the pipeline of INCR and EXPIRE, which answers the new value of the
-- counter or raises `RedisError`. The counter of a key lives longer than the minute in the key, so
-- that within the minute it only grows.
pub record Redis : Type 1 where
  pub State : Type 0
  pub count : String → State → ℕ
  pub incr : String → State → Result ℕ × State
  pub counts :
      (key : String) (s t : State) (n : ℕ)
      → incr key s ≡ (ok n, t)
      → (n ≡ suc (count key s)) × (count key t ≡ n)
  pub grows : (key other : String) (s : State) → count other s ≤ count other (incr key s).1

module _ (host : Host) where
  -- the key of a connection in a minute
  unfoldable pub limit_key : String → ℕ → String
  unfolding show slice
  limit_key subject minute =
      String.◌++◌ "okk:mcp:tools:"
        (String.◌++◌ (slice 24 (host.sha256_hex subject)) (String.◌++◌ ":" (show minute)))

  module _ (settings : Settings) (redis : Redis) where
    unfoldable pub limit_message : ℕ → String
    unfolding show
    limit_message seconds = String.◌++◌ "More than " (
        String.◌++◌ (show settings.mcp_tool_calls_per_minute) (
          String.◌++◌ " OKK requests in a minute from this connection; retry in "
            (String.◌++◌ (show (60 - seconds % 60)) " s.")))

    -- Redis down lets the call through.
    unfoldable pub checked_count : ℕ → Result ℕ → Result (Unit {0})
    unfolding limit_message
    checked_count seconds (raised e) = ok tt
    checked_count seconds (ok calls) =
        if ltb settings.mcp_tool_calls_per_minute calls
        then raised (tool_call_limited (limit_message seconds))
        else ok tt

    -- `_count_tool_call` at a second since the epoch
    unfoldable pub count_tool_call : String → ℕ → Stateful redis.State (Unit {0})
    unfolding limit_key checked_count
    count_tool_call subject seconds s =
        let counted = redis.incr (limit_key subject (seconds / 60)) s in
        (checked_count seconds counted.0, counted.1)
