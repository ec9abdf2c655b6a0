-- ===== src/ClientMetadata/Network.antt =====
-- What server/okk_mcp/client_metadata.py takes from elsewhere, and the state it keeps: its cache and
-- the requests that it sent.
use okk_analytics_codex_plug.Common.{ℕ, String, Bool, Option, List}
use okk_analytics_codex_plug.Errors.{Result}
use okk_analytics_codex_plug.ClientMetadata.Parsing.{Document, ClientMetadata}

-- `urlsplit(client_id)`
pub record SplitResult : Type 0 where
  pub scheme : String
  pub hostname : Option String
  pub username : Option String
  pub password : Option String
  pub query : String
  -- `port`: reading it may raise `ValueError`
  pub port : Result (Option ℕ)
  pub path : String
  -- `path.split("/")`
  pub segments : List String

-- an answer of the DNS, as `ipaddress` reads it
pub record IpAddress : Type 0 where
  pub text : String
  pub is_global : Bool
  pub is_multicast : Bool
  -- `is_global` and `is_multicast` of `ipv4_mapped`, where there is one
  pub ipv4_mapped : Option (Bool × Bool)

-- what a request comes back with: a timeout, another failure, or a status and the chunks of the body
pub data Fetched : Type 0 where
  timed_out : Fetched
  fetch_failed : Fetched
  answered : ℕ → List String → Fetched

pub record Web : Type 0 where
  pub urlsplit : String → SplitResult
  -- nothing where the lookup fails or an answer is no address
  pub resolve : String → ℕ → Option (List IpAddress)
  -- the answer to the n-th request
  pub fetch : ℕ → Fetched
  -- `json.loads` of a body: nothing where it raises `ValueError`
  pub loads : String → Option Document
  -- the n-th reading of `time.monotonic()`
  pub monotonic : ℕ → ℕ
  pub digits : ℕ → String

-- a request for a document: the address connected to, the name for TLS, and the path
pub record Fetch : Type 0 where
  pub address : String
  pub host : String
  pub path : String

pub record State : Type 0 where
  -- client id, instant of expiry and metadata, oldest first
  pub cache : List (String × ℕ × ClientMetadata)
  -- newest first
  pub fetches : List Fetch
  pub ticks : ℕ
