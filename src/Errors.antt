-- ===== src/Errors.antt =====
-- The exceptions of server/okk_mcp, and the results of functions that may raise one.
use okk_analytics_codex_plug.Common.{ℕ, String, Bool, true, false}

pub data Exc : Type 0 where
  value_error : String → Exc
  permission_error : String → Exc
  -- `OKKAuthenticationError`, `OKKUnavailable` and `OKKNotAvailable` of platform_client.py
  authentication_error : String → Exc
  unavailable : String → Exc
  not_available : String → Exc
  -- `HTTPException(status_code, detail)` of the handlers
  http_exception : ℕ → String → Exc
  -- `ClientMetadataError` of client_metadata.py
  metadata_error : String → Exc
  -- `ToolCallLimited` and `BackendUnavailable` of backend_client.py
  tool_call_limited : String → Exc
  backend_unavailable : String → Exc
  -- `ToolError` of the MCP library
  tool_error : String → Exc
  -- the exceptions of the language, on values of a kind that the code does not expect
  attribute_error : String → Exc
  type_error : String → Exc
  key_error : String → Exc
  -- `TimeoutError` of `asyncio.timeout`, and `RedisError`
  timeout_error : String → Exc
  redis_error : String → Exc

pub data Result {ℓ} (A : Type ℓ) : Type ℓ where
  ok : A → Result A
  raised : Exc → Result A

infixl 5 ◌>>=◌ ◌>>◌
abbrev pub ◌>>=◌ {ℓ κ} : {A : Type ℓ} {B : Type κ} → Result A → (A → Result B) → Result B
ok a >>= f = f a
raised e >>= f = raised e

abbrev pub ◌>>◌ {ℓ κ} : {A : Type ℓ} {B : Type κ} → Result A → Result B → Result B
m >> n = m >>= λ _. n

-- `except OKKNotAvailable`
unfoldable pub is_not_available : Exc → Bool
is_not_available (not_available message) = true
is_not_available _ = false
