-- ===== src/Oauth/Authorize/Login.antt =====
-- `authorize_login` of server/okk_mcp/oauth.py: a person signs in with the OKK account, and the client
-- gets an authorization code.
use okk_analytics_codex_plug.Common.{
  ℕ, ◌+◌, String, not, Option, none, some, List, [], ◌∷◌, str_eq, is_some, any, ltb, if◌then◌else◌,
  find_first,
}
use okk_analytics_codex_plug.Errors.{
  Result, ok, raised, http_exception, authentication_error, unavailable,
}
use okk_analytics_codex_plug.Models.{Client, Code, Session, update_where, minutes}
use okk_analytics_codex_plug.Effect.{
  Host, Action, pure, raise, gets, modify, ◌>>=◌, ◌>>◌, settle, now, draw,
}
use okk_analytics_codex_plug.ClientMetadata.Network.{Web}
use okk_analytics_codex_plug.ClientMetadata.{is_metadata_document_client_id}
use okk_analytics_codex_plug.Platform.Account.{authenticate}
use okk_analytics_codex_plug.Security.Redirects.{Net}
use okk_analytics_codex_plug.Oauth.Consent.{granted_scope}
use okk_analytics_codex_plug.Oauth.Types.{Settings}
use okk_analytics_codex_plug.Oauth.Store.{in_transaction}
use okk_analytics_codex_plug.Oauth.Authorize.{
  AuthRequest, Page, error_page, login_page, LoginForm, Service, authorization_redirect,
  load_client,
}

-- the new code of a sign-in
abbrev pub issued_code :
    Host → Settings → AuthRequest → Client → Session → String → String → ℕ → Code
issued_code host settings request client session scope raw_code at = record {
  code_hash = host.sha256_hex raw_code;
  client_id = client.client_id;
  session_id = session.id;
  redirect_uri = request.redirect_uri;
  scope = scope;
  code_challenge = request.code_challenge;
  resource = request.resource;
  expires_at = at + minutes settings.authorization_code_minutes;
  consumed_at = none;
}

abbrev pub add_session : Session → Action (Unit {0})
add_session s = modify λ w. record w { db = record w.db { sessions = s ∷ w.sessions } }

abbrev pub add_code : Code → Action (Unit {0})
add_code c = modify λ w. record w { db = record w.db { codes = c ∷ w.codes } }

-- the `INSERT ... ON CONFLICT DO UPDATE` of a client named by its document
unfoldable pub upsert : Client → List Client → List Client
upsert c rows =
    if is_some (find_first (λ k. str_eq k.client_id c.client_id) rows)
    then update_where (λ k. str_eq k.client_id c.client_id)
        (λ k. record k {
          client_name = c.client_name;
          redirect_uris = c.redirect_uris;
          client_uri = c.client_uri;
        })
        rows
    else c ∷ rows

module _ (host : Host) (settings : Settings) (net : Net) (web : Web) (service : Service) where
  -- `_check_login_rate_limit`
  unfoldable pub within_limit : Option (List ℕ) → Action (Unit {0})
  within_limit none = raise (http_exception 503 "Login protection is temporarily unavailable")
  within_limit (some counts) =
      if any (λ n. ltb settings.login_attempts_per_minute n) counts
      then raise (http_exception 429 "Too many login attempts")
      else pure tt

  unfoldable pub check_login_rate_limit : Action (Unit {0})
  check_login_rate_limit = do
    counts ← gets (λ w. service.login_counts w.readings)
    now host
    within_limit counts

  -- `_remember_metadata_document_client`
  unfoldable pub remember_metadata_document_client : Client → Action (Unit {0})
  remember_metadata_document_client c =
      if is_metadata_document_client_id c.client_id
      then (do
        updated ← now host
        created ← now host
        modify λ w. record w {
          db = record w.db { clients = upsert (record c { created_at = created }) w.clients };
        })
      else pure tt

  unfoldable pub issue_code : AuthRequest → Client → Session → String → Action Page
  issue_code request client session scope = do
    add_session session
    remember_metadata_document_client client
    raw_code ← draw host
    at ← now host
    add_code (issued_code host settings request client session scope raw_code at)
    pure (
        authorization_redirect settings request.redirect_uri (("code", raw_code) ∷ [])
          request.state)

  -- the outcome of `platform_client.authenticate`
  unfoldable pub signed_in :
      LoginForm → AuthRequest → Client → String → Result Session → Action Page
  signed_in form request client scope (ok session) = issue_code request client session scope
  signed_in form request client scope (raised (authentication_error message)) = pure (
      login_page client.client_name form.authorization_request form.csrf_token request.redirect_uri
        request.scope (some scope) (some "wrong login or password"))
  signed_in form request client scope (raised (unavailable message)) =
      raise (http_exception 503 message)
  signed_in form request client scope (raised e) = raise e

  unfoldable pub reloaded_form : AuthRequest → String → Result Client → Action Page
  reloaded_form request scope (raised (http_exception status detail)) =
      pure (error_page "the request is no longer valid")
  reloaded_form request scope (raised e) = raise e
  reloaded_form request scope (ok client) = do
    csrf_token ← draw host
    pure (
        login_page client.client_name (service.sign (record request { csrf_token = csrf_token }))
          csrf_token request.redirect_uri request.scope (some scope)
          (some "the login page was renewed"))

  -- the form again, signed with a new CSRF token: `_refresh_authorization_form`
  unfoldable pub refresh_unsigned : String → Option AuthRequest → Action Page
  refresh_unsigned scope none = pure (error_page "the request expired")
  refresh_unsigned scope (some request) =
      settle (load_client host settings net web service request.client_id request.redirect_uri)
        (reloaded_form request scope)

  unfoldable pub refresh_authorization_form : LoginForm → String → Action Page
  refresh_authorization_form form scope = do
    at ← now host
    refresh_unsigned scope (service.unsign at form.authorization_request)

  -- the CSRF token of the form is the signed one
  unfoldable pub log_in : LoginForm → AuthRequest → String → Action Page
  log_in form request scope = do
    client ← load_client host settings net web service request.client_id request.redirect_uri
    check_login_rate_limit
    settle (authenticate host form.email form.password) (signed_in form request client scope)

  unfoldable pub submitted : LoginForm → Option AuthRequest → Action Page
  submitted form none = pure (error_page "the request expired")
  submitted form (some request) =
      let scope = granted_scope request.scope form.consent in
      if not (str_eq request.csrf_token form.csrf_token)
      then refresh_authorization_form form scope
      else log_in form request scope

  unfoldable pub opened_request : LoginForm → Action Page
  opened_request form = do
    at ← now host
    submitted form (service.unsign at form.authorization_request)

  -- `authorize_login`
  unfoldable pub authorize_login : LoginForm → Action Page
  authorize_login form = in_transaction (opened_request form)
