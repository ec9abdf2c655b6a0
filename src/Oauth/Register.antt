-- ===== src/Oauth/Register.antt =====
-- Client registration in server/okk_mcp/oauth.py: `register_client` with its hourly limit.
pub mod Registered
use Prim.Native.String
use okk_analytics_codex_plug.Common.{
  ℕ, String, Bool, true, false, not, ◌&&◌, ◌||◌, Option, none, some, List, [], ◌∷◌, ltb, str_eq,
  nonempty, strip, subset, length, if◌then◌else◌,
}
use okk_analytics_codex_plug.Errors.{Exc, Result, ok, raised, value_error, http_exception}
use okk_analytics_codex_plug.Models.{Client}
use okk_analytics_codex_plug.Effect.{
  Host, World, Action, pure, raise, gets, modify, now, draw, ◌>>=◌, ◌>>◌,
}
use okk_analytics_codex_plug.ClientMetadata.Slices.{slice, unique}
use okk_analytics_codex_plug.Security.Redirects.{Net, validate_registered_redirect_uri}
use okk_analytics_codex_plug.Security.Scopes.{validate_scopes}
use okk_analytics_codex_plug.Oauth.Types.{Settings}
use okk_analytics_codex_plug.Oauth.Store.{in_transaction}

-- the caller's address, as `ipaddress` reads it
pub record CallerAddress : Type 0 where
  -- `address in network`, of the IPv4 address where one is mapped into IPv6
  pub within : String → Bool

-- the limits of registration (server/okk_mcp/config.py), and Redis
pub record Limits : Type 0 where
  pub registrations_per_hour : ℕ
  pub trusted_networks : List String
  pub trusted_network_registrations_per_hour : ℕ
  -- nothing where `ip_address` raises `ValueError`
  pub caller_address : String → Option CallerAddress
  -- the counter of a bucket for this hour, at the n-th reading of the clock; nothing on a `RedisError`
  pub count : String → ℕ → Option ℕ

-- the JSON body, its values as texts
pub record Payload : Type 0 where
  -- nothing where it is no list
  pub redirect_uris : Option (List String)
  pub scope : Option String
  pub grant_types : Option (List String)
  pub response_types : Option (List String)
  pub token_endpoint_auth_method : Option String
  pub client_name : Option String
  pub client_uri : Option String

pub data Registration : Type 0 where
  -- `_oauth_error(error, description)`
  refused : String → String → Registration
  registered : Client → Registration

abbrev pub or_else {ℓ} : {A : Type ℓ} → Option A → A → A
or_else none x = x
or_else (some y) x = y

unfoldable pub network_of : CallerAddress → List String → Option String
network_of address [] = none
network_of address (network ∷ rest) =
    if address.within network then some network else network_of address rest

unfoldable pub bucket_in : Limits → String → Option String → String × ℕ
bucket_in limits host none = (String.◌++◌ "ip:" host, limits.registrations_per_hour)
bucket_in limits host (some network) =
    (String.◌++◌ "net:" network, limits.trusted_network_registrations_per_hour)

-- `_registration_bucket`
unfoldable pub registration_bucket : Limits → Option String → String × ℕ
registration_bucket limits caller =
    let host = or_else caller "unknown" in
    elim (limits.caller_address host) [
      | none ↦ bucket_in limits host none
      | some address ↦ bucket_in limits host (network_of address limits.trusted_networks)
    ]

unfoldable pub check_count : ℕ → Option ℕ → Action (Unit {0})
check_count limit none = raise (http_exception 503 "Registration is temporarily unavailable")
check_count limit (some count) =
    if ltb limit count then raise (http_exception 429 "Too many client registrations") else pure tt

-- `validate_registered_redirect_uri` of each address
unfoldable pub checked_redirects : Net → List String → List String → Result (List String)
checked_redirects net allowed [] = ok []
checked_redirects net allowed (uri ∷ rest) =
    let later = checked_redirects net allowed rest in
    elim (validate_registered_redirect_uri net uri allowed) [
      | raised e ↦ raised e
      | ok validated ↦ elim later [ raised e ↦ raised e | ok vs ↦ ok (validated ∷ vs) ]
    ]

abbrev message_of : Exc → String
message_of (value_error message) = message
message_of _ = ""

-- `response_types` and the other lists, as sets
abbrev only_code : List String → Bool
only_code responses = subset responses ("code" ∷ []) && subset ("code" ∷ []) responses

abbrev shown : ℕ → String → Option String → String
shown n default o =
    let text = or_else o "" in slice n (strip (if nonempty text then text else default))

abbrev uri_of : Option String → Option String
uri_of none = none
uri_of (some s) = if nonempty s then some (slice 500 s) else none

module _ (host : Host) (settings : Settings) (net : Net) (limits : Limits) where
  -- `_check_registration_rate_limit`
  unfoldable pub check_registration_rate_limit : Option String → Action (Unit {0})
  check_registration_rate_limit caller = do
    let bucket = registration_bucket limits caller
    count ← gets (λ w. limits.count bucket.0 w.readings)
    now host
    check_count bucket.1 count

  unfoldable pub save_client : Payload → List String → String → Action Registration
  save_client payload redirects scope = do
    client_id ← draw host
    created ← now host
    let client : Client = record {
      client_id = client_id;
      client_name = shown 200 "Codex MCP client" payload.client_name;
      redirect_uris = unique redirects;
      grant_types =
          unique (or_else payload.grant_types ("authorization_code" ∷ "refresh_token" ∷ []));
      response_types = "code" ∷ [];
      token_endpoint_auth_method = "none";
      scope = scope;
      client_uri = uri_of payload.client_uri;
      created_at = created;
      expires_at = none;
      deleted_at = none;
      first_authorized_at = none;
    }
    modify (λ w. record w { db = record w.db { clients = client ∷ w.clients } })
    pure (registered client)

  unfoldable pub checked_flow : Payload → List String → Result String → Action Registration
  checked_flow payload redirects (raised e) =
      pure (refused (message_of e) "Unsupported client metadata")
  checked_flow payload redirects (ok scope) =
      if not (
          subset (or_else payload.grant_types ("authorization_code" ∷ "refresh_token" ∷ []))
            ("authorization_code" ∷ "refresh_token" ∷ []))
        || not (only_code (or_else payload.response_types ("code" ∷ [])))
      then pure (refused "invalid_client_metadata" "Unsupported OAuth flow")
      else if not (str_eq (or_else payload.token_endpoint_auth_method "none") "none")
      then pure (refused "invalid_client_metadata" "Only public PKCE clients are supported")
      else save_client payload redirects scope

  unfoldable pub with_redirects : Payload → Result (List String) → Action Registration
  with_redirects payload (raised e) = pure (refused (message_of e) "Unsupported client metadata")
  with_redirects payload (ok redirects) =
      checked_flow payload redirects (validate_scopes payload.scope)

  unfoldable pub listed : Payload → Option (List String) → Action Registration
  listed payload none = pure (refused "invalid_redirect_uri" "redirect_uris is required")
  listed payload (some uris) =
      if not (ltb 0 (length uris)) || ltb 20 (length uris)
      then pure (refused "invalid_redirect_uri" "redirect_uris is required")
      else with_redirects payload (checked_redirects net settings.oauth_redirect_uris uris)

  -- the body; nothing where it is no JSON
  unfoldable pub submitted_payload : Option Payload → Action Registration
  submitted_payload none =
      pure (refused "invalid_client_metadata" "Request body must be valid JSON")
  submitted_payload (some payload) = listed payload payload.redirect_uris

  -- `register_client`
  unfoldable pub register_client : Option String → Option Payload → Action Registration
  register_client caller body =
      in_transaction (check_registration_rate_limit caller >> submitted_payload body)
