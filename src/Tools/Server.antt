-- ===== src/Tools/Server.antt =====
-- How server/okk_mcp/server.py runs a tool: `_require_scopes`, the step-up challenge and `_read`.
pub mod Granted
use okk_analytics_codex_plug.Common.{
  ℕ, String, Bool, true, false, not, Option, none, some, List, [], ◌∷◌, ◌++◌, any, keep, contains,
  sorted_set, join, if◌then◌else◌,
}
use Prim.Native.String
use okk_analytics_codex_plug.Errors.{
  Exc, Result, ok, raised, tool_error, backend_unavailable, tool_call_limited,
}
use okk_analytics_codex_plug.Json.{Row}
use okk_analytics_codex_plug.Effect.{Host, Stateful, lift, pure, settle, raise, ◌>>=◌}
use okk_analytics_codex_plug.Oauth.Types.{Settings}
use okk_analytics_codex_plug.Oauth.Token.{AccessToken}
use okk_analytics_codex_plug.Analytics.Adapter.{Call}
use okk_analytics_codex_plug.Analytics.Envelope.{Envelope}
use okk_analytics_codex_plug.Client.{ClientState, client_get}
use okk_analytics_codex_plug.Client.Limit.{Redis}
use okk_analytics_codex_plug.Tools.{Tool, required_scopes}
use okk_analytics_codex_plug.Tools.Routes.{Read, route}

pub data ToolAnswer : Type 0 where
  -- the envelope, and the request id that travels in `_meta`
  answer : Envelope → Option String → ToolAnswer
  -- an error result with the scopes that are missing and those to ask for
  step_up : List String → String → ToolAnswer

abbrev pub granted_scopes : Option AccessToken → List String
granted_scopes none = []
granted_scopes (some token) = token.scopes

-- `missing` and `scope` of `_require_scopes`
unfoldable pub missing_scopes : List String → List String → List String
unfolding sorted_set contains
missing_scopes granted required = sorted_set (keep (λ s. not (contains s granted)) required)

unfoldable pub scopes_to_ask : List String → List String → String
unfolding sorted_set join
scopes_to_ask granted required = join (sorted_set (granted ++ required))

-- the error that the model reads
unfoldable pub tool_exception : Exc → Exc
tool_exception (backend_unavailable message) =
    tool_error "OKK is temporarily unavailable; retry in a minute. This is not an empty result."
tool_exception (tool_call_limited message) = tool_error message
tool_exception e = e

abbrev pub shown_answer : Result Envelope → Option String → Result ToolAnswer
shown_answer (ok shown) request_id = ok (answer shown request_id)
shown_answer (raised e) request_id = raised e

-- `validate` is the validation of an answer against `AnalyticsEnvelope`.
module _ (validate : Envelope → Result Envelope) where
  -- what `_read` makes of the client's outcome
  unfoldable pub read_outcome : Result Envelope → Result ToolAnswer
  unfolding tool_exception
  read_outcome (ok e) = shown_answer (validate (record e { request_id = none })) e.request_id
  read_outcome (raised e) = raised (tool_exception e)

  module _ (host : Host) (settings : Settings) (redis : Redis)
      (dispatch : ℕ → String → Row → Call Envelope) (uuid_text iso : ℕ → String) (seconds : ℕ) where
    -- `_read`
    unfoldable pub read_tool : Option AccessToken → Read → Stateful (ClientState redis) ToolAnswer
    unfolding client_get read_outcome
    read_tool token (path, params) state =
        let out =
          client_get host settings redis dispatch uuid_text seconds token path params state in
        (read_outcome out.0, out.1)

    unfoldable pub run_routed :
        Option AccessToken → Result Read → Stateful (ClientState redis) ToolAnswer
    unfolding read_tool
    run_routed token (raised e) state = (raised e, state)
    run_routed token (ok read) state = read_tool token read state

    -- a tool, as the server calls it
    unfoldable pub call_tool : Option AccessToken → Tool → Stateful (ClientState redis) ToolAnswer
    unfolding missing_scopes scopes_to_ask run_routed route required_scopes
    call_tool token tool state =
        let granted = granted_scopes token in
        let required = required_scopes tool in
        let missing = missing_scopes granted required in
        if any (λ s. true) missing
        then (ok (step_up missing (scopes_to_ask granted required)), state)
        else run_routed token (route iso tool) state
