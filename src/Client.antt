-- ===== src/Client.antt =====
-- `BackendClient` of server/okk_mcp/backend_client.py: one tool call, with its limits and the meaning of
-- its errors.
pub mod Limit
pub mod Bounded
pub mod Refused
use okk_analytics_codex_plug.Common.{
  ℕ, String, Bool, true, false, Option, none, some, List, [], ◌==◌, nonempty, if◌then◌else◌,
}
use okk_analytics_codex_plug.Errors.{
  Exc, Result, ok, raised, permission_error, authentication_error, unavailable, not_available,
  timeout_error, tool_call_limited, backend_unavailable,
}
use Prim.Native.String
use okk_analytics_codex_plug.Json.{Row, object, no_fields}
use okk_analytics_codex_plug.Json.Spelling.{show}
use okk_analytics_codex_plug.Effect.{
  Host, World, Stateful, pure, raise, settle, lift, ◌>>=◌, ◌>>◌, uuid4,
}
use okk_analytics_codex_plug.Oauth.Types.{Settings}
use okk_analytics_codex_plug.Oauth.Token.{AccessToken}
use okk_analytics_codex_plug.Platform.Context.{AccountContext}
use okk_analytics_codex_plug.Analytics.Adapter.{AdapterState, Call}
use okk_analytics_codex_plug.Analytics.Envelope.{Envelope, envelope}
use okk_analytics_codex_plug.Client.Limit.{Redis, count_tool_call}

-- `AnalyticsAdapter(...)`, before its first read
abbrev pub fresh_adapter : Option AccountContext → World → AdapterState
fresh_adapter context w = record {
  context = context;
  departments = none;
  restricted_supervisors = none;
  call_employees = [];
  world = w;
}

-- the account that the token's check found, if it found the OKK session alive
unfoldable pub validated_context : AccessToken → Option AccountContext
validated_context token = elim token.context [
  | none ↦ none
  | some c ↦ if nonempty c.access_token then some c else none
]

-- the answer of a tool that OKK has nothing to say to
unfoldable pub nothing_available : Envelope
unfolding envelope
nothing_available = envelope (object no_fields) "not_available" no_fields none 0 none

abbrev pub with_id : String → Envelope → Envelope
with_id request_id e = record e { request_id = some request_id }

-- The state of the client: the world, and the counters of Redis.
abbrev pub ClientState : Redis → Type 0
ClientState redis = World × redis.State

module _ (settings : Settings) where
  unfoldable pub budget_message : String
  unfolding show
  budget_message = String.◌++◌ "The request took longer than " (
      String.◌++◌ (show settings.mcp_tool_time_budget_seconds)
        " s and was stopped: narrow the period, the department or the filters. This is not an empty result.")

  -- what the adapter returned or raised, as the tools see it
  unfoldable pub answered : String → Result Envelope → Result Envelope
  unfolding nothing_available budget_message
  answered request_id (ok e) = ok (with_id request_id e)
  answered request_id (raised (not_available message)) = ok (with_id request_id nothing_available)
  answered request_id (raised (authentication_error message)) =
      raised (permission_error "OKK account session is no longer valid")
  answered request_id (raised (unavailable message)) =
      raised (backend_unavailable "OKK analytics is temporarily unavailable")
  answered request_id (raised (timeout_error message)) = raised (tool_call_limited budget_message)
  answered request_id (raised e) = raised e

-- `dispatch` is the tools' routes; `uuid_text` is `str` of a UUID, and `seconds` the time at which the
-- call is counted.
module _ (host : Host) (settings : Settings) (redis : Redis)
    (dispatch : ℕ → String → Row → Call Envelope) (uuid_text : ℕ → String) (seconds : ℕ) where
  unfoldable pub run_tool :
      AccessToken → String → Row → String → Stateful (ClientState redis) Envelope
  unfolding validated_context answered
  run_tool token path params request_id (w, counters) =
      let out = dispatch token.subject path params (fresh_adapter (validated_context token) w) in
      (answered settings request_id out.0, (out.1.world, counters))

  abbrev pub after_count :
      Result (Unit {0})
      → AccessToken
      → String
      → Row
      → String
      → Stateful (ClientState redis) Envelope
  unfolding run_tool
  after_count (raised e) token path params request_id state = (raised e, state)
  after_count (ok u) token path params request_id state =
      run_tool token path params request_id state

  -- `get`
  unfoldable pub client_get :
      Option AccessToken → String → Row → Stateful (ClientState redis) Envelope
  unfolding run_tool count_tool_call
  client_get none path params state =
      (raised (permission_error "Authenticated OKK account is required"), state)
  client_get (some token) path params (w, counters) =
      let request_id = uuid_text (host.uuid w.draws) in
      let counted =
        count_tool_call host settings redis (uuid_text token.subject) seconds counters in
      after_count counted.0 token path params request_id ((uuid4 host w).1, counted.1)
