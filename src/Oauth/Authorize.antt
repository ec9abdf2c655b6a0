-- ===== src/Oauth/Authorize.antt =====
-- The authorization endpoint of server/okk_mcp/oauth.py: `authorize` and `authorize_login`. Pages are
-- values that name what they show.
pub mod Login
pub mod Frame
pub mod Codes
pub mod Issued
pub mod Tokens
use Prim.Native.String
use okk_analytics_codex_plug.Common.{
  ℕ, ◌+◌, String, Bool, true, false, not, ◌&&◌, ◌||◌, Option, none, some, List, [], ◌∷◌, ◌++◌,
  str_eq, nonempty, is_some, any, leb, ltb, contains, rstrip_slash, text_or, find_first,
  if◌then◌else◌, map,
}
use okk_analytics_codex_plug.Errors.{
  Exc, Result, ok, raised, http_exception, authentication_error, unavailable,
}
use okk_analytics_codex_plug.Models.{Client, Code, Session, update_where, minutes}
use okk_analytics_codex_plug.Effect.{
  Host, World, Action, pure, raise, lift, gets, modify, ◌>>=◌, ◌>>◌, settle, now, draw,
}
use okk_analytics_codex_plug.ClientMetadata.Slices.{slice}
use okk_analytics_codex_plug.ClientMetadata.Parsing.{ClientMetadata}
use okk_analytics_codex_plug.ClientMetadata.Network.{Web}
use okk_analytics_codex_plug.ClientMetadata.{
  is_metadata_document_client_id, load_client_metadata, host_name,
}
use okk_analytics_codex_plug.Platform.Account.{authenticate}
use okk_analytics_codex_plug.Security.Pkce.{valid_pkce_challenge}
use okk_analytics_codex_plug.Security.Redirects.{Net, validate_registered_redirect_uri}
use okk_analytics_codex_plug.Security.Scopes.{validate_scopes, default_scopes}
use okk_analytics_codex_plug.Oauth.Consent.{ConsentForm, granted_scope}
use okk_analytics_codex_plug.Oauth.Types.{Settings, given, value}
use okk_analytics_codex_plug.Oauth.Store.{find_client, in_transaction}

-- what is signed into the login page
pub record AuthRequest : Type 0 where
  pub client_id : String
  pub redirect_uri : String
  pub state : Option String
  pub scope : String
  pub resource : String
  pub code_challenge : String
  pub csrf_token : String

pub data Page : Type 0 where
  -- `_render_authorization_error`, by its reason
  error_page : String → Page
  -- `_render_login`: client name, signed request, CSRF token, return address, scope, the person's
  -- choice and the error shown
  login_page : String → String → String → String → String → Option String → Option String → Page
  -- `_authorization_redirect`: the address and the query values added to it
  redirected : String → List (String × String) → Page

pub record Query : Type 0 where
  pub client_id : Option String
  pub redirect_uri : Option String
  pub response_type : Option String
  pub code_challenge : Option String
  pub code_challenge_method : Option String
  pub state : Option String
  pub scope : Option String
  pub resource : Option String

pub record LoginForm : Type 0 where
  pub authorization_request : String
  pub csrf_token : String
  pub email : String
  pub password : String
  pub consent : ConsentForm

-- itsdangerous and Redis
pub record Service : Type 0 where
  pub sign : AuthRequest → String
  -- the signed request at an instant: nothing for a bad signature or one older than 600 seconds
  pub unsign : ℕ → String → Option AuthRequest
  -- the counters of this minute for the address and the account, at the n-th reading of the clock;
  -- nothing on a `RedisError`
  pub login_counts : ℕ → Option (List ℕ)

abbrev state_values : Option String → List (String × String)
state_values none = []
state_values (some s) = ("state", s) ∷ []

unfoldable pub authorization_redirect :
    Settings → String → List (String × String) → Option String → Page
authorization_redirect settings uri values state =
    redirected uri (values ++ state_values state ++ ("iss", settings.issuer_url) ∷ [])

-- `_allowed_redirect`
unfoldable pub allowed_redirect : Net → Settings → String → Bool
allowed_redirect net settings uri =
    elim (validate_registered_redirect_uri net uri settings.oauth_redirect_uris) [
      | ok validated ↦ true
      | raised e ↦ false
    ]

abbrev is_expired : Option ℕ → ℕ → Bool
is_expired none at = false
is_expired (some expires) at = leb expires at

abbrev invalid_client : Exc
invalid_client = http_exception 400 "Invalid OAuth client or redirect URI"

-- the row of a client that was not saved yet gets its instant when it is
abbrev document_client : String → String → ClientMetadata → Client
document_client client_id host metadata = record {
  client_id = client_id;
  client_name = slice 200 (
      if nonempty metadata.client_name
      then String.◌++◌ metadata.client_name (String.◌++◌ " (" (String.◌++◌ host ")"))
      else host);
  redirect_uris = metadata.redirect_uris;
  grant_types = "authorization_code" ∷ "refresh_token" ∷ [];
  response_types = "code" ∷ [];
  token_endpoint_auth_method = "none";
  scope = default_scopes;
  client_uri = metadata.client_uri;
  created_at = 0;
  expires_at = none;
  deleted_at = none;
  first_authorized_at = none;
}

abbrev is_blocked : Option Client → Bool
is_blocked none = false
is_blocked (some c) = is_some c.deleted_at

module _ (host : Host) (settings : Settings) (net : Net) (web : Web) (service : Service) where
  -- `load_client_metadata` with the state that the gateway keeps for it
  abbrev pub loaded : String → Action ClientMetadata
  loaded client_id w =
      let (r, s) = load_client_metadata web client_id w.metadata in (r, record w { metadata = s })

  unfoldable pub saved_or_blocked : String → Result ClientMetadata → Action (Option Client)
  saved_or_blocked client_id (raised e) = pure none
  saved_or_blocked client_id (ok metadata) = do
    stored ← gets (λ w. find_first (λ c. str_eq c.client_id client_id) w.clients)
    if is_blocked stored
        then pure none
        else pure (
            some (document_client client_id (host_name (web.urlsplit client_id).hostname) metadata))

  -- `_metadata_document_client`
  unfoldable pub metadata_document_client : String → Action (Option Client)
  metadata_document_client client_id =
      if settings.client_metadata_documents_enabled
      then settle (loaded client_id) (saved_or_blocked client_id)
      else pure none

  unfoldable pub matching_client : String → Client → Action Client
  matching_client redirect_uri c =
      if not (contains redirect_uri c.redirect_uris)
        || not (allowed_redirect net settings redirect_uri)
      then raise invalid_client
      else pure c

  -- the checks of `_load_client` on what was found
  unfoldable pub usable_client : String → Option Client → Action Client
  usable_client redirect_uri none = raise invalid_client
  usable_client redirect_uri (some c) =
      if is_some c.expires_at
      then (do
        at ← now host
        if is_expired c.expires_at at then raise invalid_client else matching_client redirect_uri c)
      else matching_client redirect_uri c

  -- `_load_client`
  unfoldable pub load_client : String → String → Action Client
  load_client client_id redirect_uri = do
    client ←
        if is_metadata_document_client_id client_id
        then metadata_document_client client_id
        else gets (λ w. find_client client_id w.clients)
    usable_client redirect_uri client

  unfoldable pub refused_redirect : Query → List (String × String) → Page
  refused_redirect q values = authorization_redirect settings (value q.redirect_uri) values q.state

  -- the scope was accepted: the signed login page, or the refusal of another resource
  unfoldable pub shown_login : Query → Client → Result String → Action Page
  shown_login q client (raised e) = pure (refused_redirect q (("error", "invalid_scope") ∷ []))
  shown_login q client (ok scope) =
      let resource : String = rstrip_slash (text_or (value q.resource) settings.resource_url) in
      if not (str_eq resource settings.resource_url)
      then pure (refused_redirect q (("error", "invalid_target") ∷ []))
      else (do
        csrf_token ← draw host
        let request : AuthRequest = record {
          client_id = value q.client_id;
          redirect_uri = value q.redirect_uri;
          state = q.state;
          scope = scope;
          resource = resource;
          code_challenge = value q.code_challenge;
          csrf_token = csrf_token;
        }
        pure (
            login_page client.client_name (service.sign request) csrf_token (value q.redirect_uri)
              scope none none))

  unfoldable pub authorize_client_request : Query → Client → Action Page
  authorize_client_request q client =
      if not (str_eq (value q.response_type) "code")
      then pure (refused_redirect q (("error", "unsupported_response_type") ∷ []))
      else if not (valid_pkce_challenge (value q.code_challenge) (value q.code_challenge_method))
      then pure (
          refused_redirect q
            (("error", "invalid_request") ∷ ("error_description", "PKCE S256 is required") ∷ []))
      else shown_login q client (validate_scopes (some (text_or (value q.scope) client.scope)))

  -- `authorize`
  unfoldable pub authorize : Query → Action Page
  authorize q =
      if not (
        given q.client_id
        && given q.redirect_uri
        && given q.response_type
        && given q.code_challenge
        && given q.code_challenge_method)
      then pure (error_page "not started")
      else in_transaction (do
        client ← load_client (value q.client_id) (value q.redirect_uri)
        authorize_client_request q client)
