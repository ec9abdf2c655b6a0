-- ===== src/Oauth/Types.antt =====
-- What the handlers of server/okk_mcp/oauth.py take and answer, and the settings that they read
-- (server/okk_mcp/config.py).
use okk_analytics_codex_plug.Errors.{Result, ok}
use okk_analytics_codex_plug.Common.{
  ◌≢◌, ℕ, String, Option, none, some, List, Bool, false, nonempty,
}

pub record Settings : Type 0 where
  pub issuer_url : String
  pub resource_url : String
  pub access_token_minutes : ℕ
  pub refresh_token_days : ℕ
  pub authorization_code_minutes : ℕ
  pub refresh_retry_seconds : ℕ
  pub audit_retention_days : ℕ
  pub login_attempts_per_minute : ℕ
  pub oauth_redirect_uris : List String
  pub client_metadata_documents_enabled : Bool
  pub analytics_max_calls : ℕ
  pub analytics_max_employees : ℕ
  pub mcp_tool_calls_per_minute : ℕ
  pub mcp_tool_time_budget_seconds : ℕ

pub data Reply : Type 0 where
  -- `_oauth_error(error, description, status)`
  oauth_error : String → String → ℕ → Reply
  -- `_token_response`: access token, refresh token, scope, seconds to live
  token_response : String → String → String → ℕ → Reply
  -- the empty answer of `/revoke`
  done : Reply

pub record TokenForm : Type 0 where
  pub grant_type : String
  pub client_id : String
  pub code : Option String
  pub redirect_uri : Option String
  pub code_verifier : Option String
  pub refresh_token : Option String
  pub scope : Option String
  pub resource : Option String

-- the truth of an optional text
abbrev pub given : Option String → Bool
given none = false
given (some s) = nonempty s

-- the given text; empty where there is none
abbrev pub value : Option String → String
value none = ""
value (some s) = s

-- an outcome that hands out no tokens
abbrev pub Tokenless : Result Reply → Type 0
Tokenless outcome =
    (access_token refresh_token scope : String) (expires_in : ℕ)
    → outcome ≢ ok (token_response access_token refresh_token scope expires_in)
