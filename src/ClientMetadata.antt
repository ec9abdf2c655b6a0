-- ===== src/ClientMetadata.antt =====
-- server/okk_mcp/client_metadata.py: clients named by the HTTPS URL of their own metadata document.
-- `urlsplit`, the DNS, the HTTP client and JSON are parameters.
pub mod Slices
pub mod Parsing
pub mod Network
pub mod Cache
pub mod Public
pub mod Accepted
use Prim.Native.String
use okk_analytics_codex_plug.Common.{
  ℕ, ◌+◌, ◌*◌, suc, String, Bool, true, false, not, ◌&&◌, ◌||◌, Option, none, some, List, [], ◌∷◌,
  ◌++◌, ◌==◌, leb, ltb, str_eq, nonempty, chars, all_chars, is_some, find?, starts_with, all, any,
  keep, length, if◌then◌else◌,
}
use okk_analytics_codex_plug.Errors.{Exc, Result, ok, raised, metadata_error}
use okk_analytics_codex_plug.ClientMetadata.Network.{
  SplitResult, IpAddress, Fetched, timed_out, fetch_failed, answered, Web, Fetch, State,
}
use okk_analytics_codex_plug.Security.Redirects.{is_forbidden}
use okk_analytics_codex_plug.ClientMetadata.Parsing.{Document, ClientMetadata, parse}

abbrev pub max_document_bytes : ℕ
max_document_bytes = 5 * 1024

-- in microseconds
abbrev pub cache_seconds : ℕ
cache_seconds = 300000000

abbrev pub cache_max_entries : ℕ
cache_max_entries = 256

abbrev pub max_client_id_length : ℕ
max_client_id_length = 200

abbrev pub Step : Type 0 → Type 0
Step A = State → Result A × State

unfoldable pub is_metadata_document_client_id : String → Bool
is_metadata_document_client_id client_id = starts_with client_id "https://"

abbrev pub host_name : Option String → String
host_name none = ""
host_name (some h) = h

abbrev port_or : Option ℕ → ℕ → ℕ
port_or none default = default
port_or (some p) default = if p == 0 then default else p

-- the port of a URL that may be fetched
abbrev bad_port : Result (Option ℕ) → Bool
bad_port (raised e) = true
bad_port (ok none) = false
bad_port (ok (some p)) = p == 0

abbrev pub port_of : Result (Option ℕ) → ℕ
port_of (raised e) = 443
port_of (ok p) = port_or p 443

unfoldable pub validated_url : Web → String → Result SplitResult
validated_url web client_id =
    let url = web.urlsplit client_id in
    if ltb max_client_id_length (chars client_id)
      || is_some (find? client_id "#")
      || is_some (find? client_id "\\")
      || not (all_chars (λ ch. not (is_forbidden ch)) client_id)
    then raised (metadata_error "invalid_client_id_url")
    else if not (str_eq url.scheme "https")
        || not (nonempty (host_name url.hostname))
        || is_some url.username
        || is_some url.password
        || nonempty url.query
        || bad_port url.port
        || str_eq url.path ""
        || str_eq url.path "/"
        || any (λ s. str_eq s "." || str_eq s "..") url.segments
    then raised (metadata_error "invalid_client_id_url")
    else ok url

unfoldable pub is_public : IpAddress → Bool
is_public a = elim a.ipv4_mapped [
  | none ↦ a.is_global && not a.is_multicast
  | some mapped ↦ mapped.0 && not mapped.1
]

-- the answers of the lookup: every one must be public
unfoldable pub pick_address : Option (List IpAddress) → Result IpAddress
pick_address none = raised (metadata_error "dns_failed")
pick_address (some []) = raised (metadata_error "dns_failed")
pick_address (some (a ∷ rest)) =
    if all is_public (a ∷ rest) then ok a else raised (metadata_error "non_public_address")

-- the chunks of the body, up to the limit of its size; characters are counted for the bytes of the
-- source
unfoldable pub read_chunks : String → List String → Result String
read_chunks body [] = ok body
read_chunks body (chunk ∷ rest) =
    let extended = String.◌++◌ body chunk in
    let later = read_chunks extended rest in
    if ltb max_document_bytes (chars extended)
    then raised (metadata_error "document_too_large")
    else later

unfoldable pub body_of : Web → Fetched → Result String
body_of web timed_out = raised (metadata_error "timeout")
body_of web fetch_failed = raised (metadata_error "fetch_failed")
body_of web (answered status chunks) =
    if status == 200
    then read_chunks "" chunks
    else raised (metadata_error (String.◌++◌ "http_" (web.digits status)))

abbrev pub tick : State → State
tick s = record s { ticks = suc s.ticks }

-- `_cache.get(client_id)`
unfoldable pub cached : String → List (String × ℕ × ClientMetadata) → Option (ℕ × ClientMetadata)
cached client_id [] = none
cached client_id ((id, expires, metadata) ∷ rest) =
    if str_eq id client_id then some (expires, metadata) else cached client_id rest

unfoldable pub drop_oldest_entry :
    List (String × ℕ × ClientMetadata) → List (String × ℕ × ClientMetadata)
drop_oldest_entry [] = []
drop_oldest_entry (e ∷ rest) = rest

abbrev without : String → List (String × ℕ × ClientMetadata) → List (String × ℕ × ClientMetadata)
without client_id = keep (λ e. not (str_eq e.0 client_id))

-- the cache with a new entry at its end; a full one loses its oldest entry first
unfoldable pub remember_metadata :
    String
    → ℕ
    → ClientMetadata
    → List (String × ℕ × ClientMetadata)
    → List (String × ℕ × ClientMetadata)
unfolding drop_oldest_entry
remember_metadata client_id expires metadata cache =
    let others = without client_id cache in
    (if leb cache_max_entries (length others) then drop_oldest_entry others else others)
    ++ (client_id, expires, metadata) ∷ []

module _ (web : Web) where
  -- `_download`
  unfoldable pub download : SplitResult → IpAddress → Step String
  download url address s = (
    body_of web (web.fetch (length s.fetches)),
    record s {
      fetches =
          record { address = address.text; host = host_name url.hostname; path = url.path }
          ∷ s.fetches;
    },
  )

  unfoldable pub parsed : Result String → String → Result ClientMetadata
  parsed (raised e) client_id = raised e
  parsed (ok raw) client_id = parse (web.loads raw) client_id

  unfoldable pub remember_loaded : String → Result ClientMetadata → Step ClientMetadata
  remember_loaded client_id (raised e) s = (raised e, s)
  remember_loaded client_id (ok metadata) s = (
    ok metadata,
    record (tick s) {
      cache = remember_metadata client_id (web.monotonic s.ticks + cache_seconds) metadata s.cache;
    },
  )

  unfoldable pub fetched_metadata : String → SplitResult → Result IpAddress → Step ClientMetadata
  fetched_metadata client_id url (raised e) s = (raised e, s)
  fetched_metadata client_id url (ok address) s =
      let (raw, s') = download url address s in remember_loaded client_id (parsed raw client_id) s'

  unfoldable pub load_uncached : String → Result SplitResult → Step ClientMetadata
  load_uncached client_id (raised e) s = (raised e, s)
  load_uncached client_id (ok url) s =
      fetched_metadata client_id url
        (pick_address (web.resolve (host_name url.hostname) (port_of url.port))) s

  unfoldable pub load_entry : String → Option (ℕ × ClientMetadata) → Step ClientMetadata
  load_entry client_id none s = load_uncached client_id (validated_url web client_id) s
  load_entry client_id (some (expires, metadata)) s =
      if ltb (web.monotonic s.ticks) expires
      then (ok metadata, tick s)
      else load_uncached client_id (validated_url web client_id) (tick s)

  -- `load_client_metadata`
  unfoldable pub load_client_metadata : String → Step ClientMetadata
  load_client_metadata client_id s = load_entry client_id (cached client_id s.cache) s
