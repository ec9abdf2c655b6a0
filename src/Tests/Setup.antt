-- ===== src/Tests/Setup.antt =====
-- A host, settings and tables for the runs.
use okk_analytics_codex_plug.Common.{
  ℕ, suc, zero, ◌+◌, String, Option, none, some, List, [], ◌∷◌, split, Bool, true, false, leb, ◌&&◌,
}
use Prim.Native.String
use Prim.Native.Char.{Char, code as character_code}
use okk_analytics_codex_plug.Models.{
  Client, Session, Code, Token, access, refresh, days, minutes, seconds,
}
use okk_analytics_codex_plug.Effect.{Host, World, response, User, Response}
use okk_analytics_codex_plug.Errors.{raised, value_error}
use okk_analytics_codex_plug.Json.{null}
use okk_analytics_codex_plug.Oauth.Types.{Settings, TokenForm}

-- a different text for each draw
abbrev pub random_text : ℕ → String
random_text zero = ""
random_text (suc n) = String.◌∷◌ "x" (random_text n)

abbrev tail : String → Option String
tail String.[] = none
tail (String.◌∷◌ c s) = some s

abbrev first_two : List String → String × String
first_two (a ∷ (b ∷ rest)) = (a, b)
first_two _ = ("", "")

abbrev pub user : User
user = record {
  id = "u1";
  email = "anna@example.com";
  role = "viewer";
  department_ids = "d1" ∷ [];
  is_active = true;
}

abbrev pub accepted : Response
accepted = record {
  status = 200;
  refresh_cookie = some "okk-refresh-2";
  access_token = "okk-access-2";
  user = user;
  body = "{}";
}

-- the first microsecond of the runs
abbrev pub start : ℕ
start = 1000000000000

-- an ASCII letter
abbrev is_letter : Char → Bool
is_letter c = leb 97 (character_code c) && leb (character_code c) 122

-- an ASCII digit
abbrev is_figure : Char → Bool
is_figure c = leb b'0' (character_code c) && leb (character_code c) b'9'

-- The clock goes on a second at each reading; sealing prefixes a character.
abbrev pub host : Host
host = record {
  now = λ n. start + seconds n;
  random = random_text;
  uuid = λ n. 100 + n;
  answer = λ n. response accepted;
  sha256_hex = λ s. String.◌∷◌ "h" s;
  sha256_b64 = λ s. s;
  encrypt = λ n s. String.◌∷◌ "e" s;
  decrypt = tail;
  dumps_pair = λ a b. String.◌++◌ a (String.◌++◌ " " b);
  loads_pair = λ s. first_two (split s);
  lower = λ s. s;
  loads = λ s. null;
  repr = λ v. "[...]";
  int = λ v. raised (value_error "int");
  fold_case = λ s. s;
  is_alnum = is_letter;
  is_digit = is_figure;
  is_decimal = is_figure;
  is_upper = λ s. false;
  is_hidden = λ c. false;
}

abbrev pub settings : Settings
settings = record {
  issuer_url = "https://mcp.example.com";
  resource_url = "https://mcp.example.com/mcp";
  access_token_minutes = 15;
  refresh_token_days = 30;
  authorization_code_minutes = 5;
  refresh_retry_seconds = 60;
  audit_retention_days = 30;
  login_attempts_per_minute = 8;
  oauth_redirect_uris = "https://chatgpt.com/connector" ∷ [];
  client_metadata_documents_enabled = true;
  analytics_max_calls = 5000;
  analytics_max_employees = 2000;
  mcp_tool_calls_per_minute = 60;
  mcp_tool_time_budget_seconds = 50;
}

abbrev pub client : Client
client = record {
  client_id = "c1";
  client_name = "Codex";
  redirect_uris = "https://chatgpt.com/connector" ∷ [];
  grant_types = "authorization_code" ∷ "refresh_token" ∷ [];
  response_types = "code" ∷ [];
  token_endpoint_auth_method = "none";
  scope = "email openid";
  client_uri = none;
  created_at = 0;
  expires_at = none;
  deleted_at = none;
  first_authorized_at = none;
}

abbrev pub session : Session
session = record {
  id = 7;
  okk_user_id = "u1";
  encrypted_access_token = "eokk-access-1";
  encrypted_refresh_token = "eokk-refresh-1";
  role_snapshot = "viewer";
  department_ids_snapshot = [];
  revoked_at = none;
  last_verified_at = none;
}

abbrev pub verifier : String
verifier = "aaaaaaaaaaaaaaaaaaaaaaaaaaaaaaaaaaaaaaaaaaaaaaa"

abbrev pub code : Code
code = record {
  code_hash = "hk1";
  client_id = "c1";
  session_id = 7;
  redirect_uri = "https://chatgpt.com/connector";
  scope = "email openid";
  code_challenge = verifier;
  resource = "https://mcp.example.com/mcp";
  expires_at = start + minutes 5;
  consumed_at = none;
}

-- an access and a refresh token of one family
abbrev pub access_row : Token
access_row = record {
  token_hash = "ha1";
  token_type = access;
  client_id = "c1";
  session_id = 7;
  scope = "email openid";
  resource = "https://mcp.example.com/mcp";
  family_id = 50;
  expires_at = start + minutes 15;
  consumed_at = none;
  revoked_at = none;
  replaced_by_hash = none;
  successor_sealed = none;
}

abbrev pub refresh_row : Token
refresh_row = record access_row {
  token_hash = "hr1";
  token_type = refresh;
  expires_at = start + days 30;
}

-- the same tokens after a reuse was detected
abbrev pub used_row : Token
used_row = record refresh_row { consumed_at = some 1; revoked_at = some 1 }

abbrev pub world_with : List Code → List Token → World
world_with codes tokens = record {
  db = record { clients = client ∷ []; sessions = session ∷ []; codes = codes; tokens = tokens };
  renewed = [];
  metadata = record { cache = []; fetches = []; ticks = 0 };
  sent = [];
  readings = 0;
  draws = 0;
}

abbrev pub code_form : TokenForm
code_form = record {
  grant_type = "authorization_code";
  client_id = "c1";
  code = some "k1";
  redirect_uri = some "https://chatgpt.com/connector";
  code_verifier = some verifier;
  refresh_token = none;
  scope = none;
  resource = none;
}

abbrev pub refresh_form : TokenForm
refresh_form = record code_form { grant_type = "refresh_token"; refresh_token = some "r1" }
