-- ===== src/Security/Redirects.antt =====
-- The redirect URIs of server/okk_mcp/security.py. What `urlparse`, `ipaddress` and the IDNA codec
-- make of a text are parameters.
pub mod Registered
use Prim.Native.String
use Prim.Native.Char.{Char, code}
use okk_analytics_codex_plug.Common.{
  ℕ, String, Bool, true, false, not, ◌&&◌, ◌||◌, Option, none, some, List, [], ◌∷◌, ◌==◌, leb, ltb,
  str_eq, nonempty, chars, all_chars, is_space, is_some, find?, starts_with, contains, all,
  if◌then◌else◌,
}
use okk_analytics_codex_plug.Errors.{Result, ok, raised, value_error, ◌>>=◌, ◌>>◌}

-- `urlparse(uri)`
pub record Url : Type 0 where
  pub scheme : String
  -- `hostname`, in lower case
  pub hostname : Option String
  pub username : Option String
  pub password : Option String
  -- `port`: reading it may raise `ValueError`
  pub port : Result (Option ℕ)

-- `ipaddress.ip_address(host)`
pub record Address : Type 0 where
  pub version_6 : Bool
  pub is_loopback : Bool
  pub scope_id : Option String
  pub compressed : String

pub record Net : Type 0 where
  pub urlparse : String → Url
  -- nothing where `ip_address` raises `ValueError`
  pub ip_address : String → Option Address
  -- `host.encode("idna").decode("ascii").lower()`; nothing on a `UnicodeError`
  pub idna : String → Option String
  pub lower : String → String
  -- `host.rstrip(".").split(".")`
  pub labels : String → List String
  -- `str(port)`
  pub digits : ℕ → String

abbrev pub invalid_redirect_uri : {A : Type 0} → Result A
invalid_redirect_uri = raised (value_error "invalid_redirect_uri")

-- a character that no redirect URI holds
abbrev pub is_forbidden : Char → Bool
is_forbidden ch = is_space ch || ltb (code ch) 32 || code ch == 127

abbrev pub host_or_empty : Option String → String
host_or_empty none = ""
host_or_empty (some h) = h

abbrev pub given_text : Option String → Bool
given_text none = false
given_text (some s) = nonempty s

abbrev is_label_char : Char → Bool
is_label_char ch =
    let c = code ch in (leb b'a' c && leb c b'z') || (leb b'0' c && leb c b'9') || c == b'-'

abbrev ends_dash : String → Bool
ends_dash String.[] = false
ends_dash (String.◌∷◌ c String.[]) = code c == b'-'
ends_dash (String.◌∷◌ c (String.◌∷◌ d s)) = ends_dash (String.◌∷◌ d s)

-- a label of a host name
unfoldable pub is_label : String → Bool
is_label label =
    nonempty label
    && leb (chars label) 63
    && not (starts_with label "-")
    && not (ends_dash label)
    && all_chars is_label_char label

module _ (net : Net) where
  unfoldable pub serialize_name : Option String → Result String
  serialize_name none = invalid_redirect_uri
  serialize_name (some ascii_host) =
      if not (nonempty ascii_host)
        || ltb 253 (chars ascii_host)
        || not (all is_label (net.labels ascii_host))
      then invalid_redirect_uri
      else ok ascii_host

  unfoldable pub serialize_address : Address → Result String
  serialize_address a =
      if a.version_6
      then if is_some a.scope_id
        then invalid_redirect_uri
        else ok (String.◌++◌ "[" (String.◌++◌ a.compressed "]"))
      else ok a.compressed

  -- `_serialize_redirect_host`
  unfoldable pub serialize_redirect_host : String → Result String
  serialize_redirect_host host = elim (net.ip_address host) [
    | none ↦ serialize_name (net.idna host)
    | some a ↦ serialize_address a
  ]

  unfoldable pub is_loopback_host : String → Bool
  is_loopback_host host = elim (net.ip_address host) [
    | none ↦ str_eq (net.lower host) "localhost"
    | some a ↦ a.is_loopback
  ]

  -- the checks of the text itself
  unfoldable pub is_malformed : String → Bool
  is_malformed uri =
      ltb 1000 (chars uri)
      || is_some (find? uri "#")
      || is_some (find? uri "\\")
      || not (all_chars (λ ch. not (is_forbidden ch)) uri)

  unfoldable pub check_port : Result (Option ℕ) → Result (Unit {0})
  check_port (raised e) = invalid_redirect_uri
  check_port (ok none) = ok tt
  check_port (ok (some port)) = if port == 0 then invalid_redirect_uri else ok tt

  -- the scheme: HTTPS, or HTTP to this computer
  unfoldable pub check_scheme : String → Url → Result String
  check_scheme uri parsed =
      if str_eq parsed.scheme "https"
      then ok uri
      else if not (str_eq parsed.scheme "http")
          || not (is_loopback_host (host_or_empty parsed.hostname))
      then invalid_redirect_uri
      else ok uri

  unfoldable pub validate_redirect_uri : String → Result String
  validate_redirect_uri uri =
      if is_malformed uri
      then invalid_redirect_uri
      else let parsed = net.urlparse uri in
        if not (nonempty parsed.scheme)
          || not (given_text parsed.hostname)
          || given_text parsed.username
          || given_text parsed.password
        then invalid_redirect_uri
        else (do
          serialize_redirect_host (host_or_empty parsed.hostname)
          check_port parsed.port
          check_scheme uri parsed)

  unfoldable pub validate_registered_redirect_uri : String → List String → Result String
  validate_registered_redirect_uri uri allowed_uris = do
    validated ← validate_redirect_uri uri
    if is_loopback_host (host_or_empty (net.urlparse validated).hostname)
          || contains validated allowed_uris
        then ok validated
        else invalid_redirect_uri

  -- the address that the login page shows, and whether it is known
  unfoldable pub redirect_destination : String → List String → String × Bool
  redirect_destination uri allowed_uris =
      if is_loopback_host (host_or_empty (net.urlparse uri).hostname)
      then ("в приложение на этом компьютере", true)
      else (uri, contains uri allowed_uris)

  unfoldable pub port_suffix : Option ℕ → String
  port_suffix none = ""
  port_suffix (some port) = String.◌++◌ ":" (net.digits port)

  unfoldable pub redirect_origin : String → Result String
  redirect_origin uri = do
    validated ← validate_redirect_uri uri
    let parsed = net.urlparse validated
    host ← serialize_redirect_host (host_or_empty parsed.hostname)
    port ← parsed.port
    ok (String.◌++◌ parsed.scheme (String.◌++◌ "://" (String.◌++◌ host (port_suffix port))))
