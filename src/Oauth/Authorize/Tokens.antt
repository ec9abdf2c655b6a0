-- ===== src/Oauth/Authorize/Tokens.antt =====
-- The login of server/okk_mcp/oauth.py leaves the tokens alone.
use okk_analytics_codex_plug.Common.{
  ◌≡◌, ◌≤◌, refl, ap, String, Bool-cases, inl, inr, Option, none, some, List, str_eq, arith,
}
use okk_analytics_codex_plug.Errors.{Result, ok, raised, authentication_error, unavailable}
use okk_analytics_codex_plug.Models.{Client, Code, Session, Token}
use okk_analytics_codex_plug.Effect.{Host, World, Action, grants, draw, now}
use okk_analytics_codex_plug.Effect.Preserves.{Preserves, preserve_rules}
use okk_analytics_codex_plug.ClientMetadata.Network.{Web}
use okk_analytics_codex_plug.ClientMetadata.{is_metadata_document_client_id}
use okk_analytics_codex_plug.Platform.Account.{authenticate}
use okk_analytics_codex_plug.Platform.Account.Frame.{authenticate-grants}
use okk_analytics_codex_plug.Security.Redirects.{Net}
use okk_analytics_codex_plug.Oauth.Types.{Settings}
use okk_analytics_codex_plug.Oauth.Store.{in_transaction, rolled_back}
use okk_analytics_codex_plug.Oauth.Authorize.{AuthRequest, Page, LoginForm, Service, load_client}
use okk_analytics_codex_plug.Oauth.Authorize.Frame.{load_client-grants}
use okk_analytics_codex_plug.Oauth.Authorize.Codes.{limit-grants}
use okk_analytics_codex_plug.Oauth.Authorize.Issued.{form-grants}
use okk_analytics_codex_plug.Oauth.Authorize.Login.{
  check_login_rate_limit, add_session, add_code, remember_metadata_document_client, issue_code,
  signed_in, log_in, submitted, opened_request, authorize_login,
}

abbrev pub tokens_of : World → List Token
tokens_of w = w.tokens

Preserves-tokens {ℓ} : {A : Type ℓ} (m : Action A) → Preserves grants m → Preserves tokens_of m
Preserves-tokens m p = record { at = λ w. ap (λ g. g.2) (p.at w); grows = p.grows }

after_rollback :
    (w : World) (out : Result Page × World)
    → out.1.tokens ≡ w.tokens
    → (rolled_back w out).1.tokens ≡ w.tokens
unfolding rolled_back
after_rollback w (ok page, w') h = h
after_rollback w (raised e, w') h = refl

draws_kept :
    (w : World) (out : Result Page × World)
    → w.draws ≤ out.1.draws
    → w.draws ≤ (rolled_back w out).1.draws
unfolding rolled_back
draws_kept w (ok page, w') h = h
draws_kept w (raised e, w') h = h

Transaction-tokens :
    (m : Action Page) → Preserves tokens_of m → Preserves tokens_of (in_transaction m)
unfolding in_transaction
Transaction-tokens m p = record {
  at = λ w. after_rollback w (m w) (p.at w);
  grows = λ w. draws_kept w (m w) (p.grows w);
}

module _ (host : Host) (settings : Settings) (net : Net) (web : Web) (service : Service) where
  session-tokens : (s : Session) → Preserves tokens_of (add_session s)
  session-tokens s = record { at = λ w. refl; grows = λ w. omega arith }

  code-tokens : (c : Code) → Preserves tokens_of (add_code c)
  code-tokens c = record { at = λ w. refl; grows = λ w. omega arith }

  draw-tokens : Preserves tokens_of (draw host)
  draw-tokens = record { at = λ w. refl; grows = λ w. omega arith }

  now-tokens : Preserves tokens_of (now host)
  now-tokens = record { at = λ w. refl; grows = λ w. omega arith }

  remember-tokens :
      (c : Client)
      → Preserves tokens_of (remember_metadata_document_client host settings net web service c)
  unfolding remember_metadata_document_client
  remember-tokens c = elim (Bool-cases (is_metadata_document_client_id c.client_id)) [
    | inl e ↦ rw e (record { at = λ w. refl; grows = λ w. omega arith })
    | inr e ↦ rw e (record { at = λ w. refl; grows = λ w. omega arith })
  ]

  issue_code-tokens :
      (request : AuthRequest) (client : Client) (session : Session) (scope : String)
      → Preserves tokens_of (issue_code host settings net web service request client session scope)
  unfolding issue_code
  issue_code-tokens request client session scope =
      search (preserve_rules, session-tokens, code-tokens, draw-tokens, now-tokens, remember-tokens)
        depth 16

  signed_in-tokens :
      (form : LoginForm) (request : AuthRequest) (client : Client) (scope : String)
      (r : Result Session)
      → Preserves tokens_of (signed_in host settings net web service form request client scope r)
  unfolding signed_in
  signed_in-tokens form request client scope (ok session) =
      issue_code-tokens request client session scope
  signed_in-tokens form request client scope (raised (authentication_error m)) =
      search preserve_rules
  signed_in-tokens form request client scope (raised (unavailable m)) = search preserve_rules
  signed_in-tokens form request client scope (raised _) = search preserve_rules

  load-tokens :
      (id redirect_uri : String)
      → Preserves tokens_of (load_client host settings net web service id redirect_uri)
  load-tokens id redirect_uri =
      Preserves-tokens _ (load_client-grants host settings net web service id redirect_uri)

  limit-tokens : Preserves tokens_of (check_login_rate_limit host settings net web service)
  limit-tokens = Preserves-tokens _ (limit-grants host settings net web service)

  account-tokens :
      (email password : String) → Preserves tokens_of (authenticate host email password)
  account-tokens email password = Preserves-tokens _ (authenticate-grants host email password)

  log_in-tokens :
      (form : LoginForm) (request : AuthRequest) (scope : String)
      → Preserves tokens_of (log_in host settings net web service form request scope)
  unfolding log_in
  log_in-tokens form request scope =
      search (preserve_rules, load-tokens, limit-tokens, account-tokens, signed_in-tokens) depth 10

  submitted-tokens :
      (form : LoginForm) (o : Option AuthRequest)
      → Preserves tokens_of (submitted host settings net web service form o)
  unfolding submitted
  submitted-tokens form none = search preserve_rules
  submitted-tokens form (some request) =
      elim (Bool-cases (str_eq request.csrf_token form.csrf_token)) [
        | inl e ↦ rw e (log_in-tokens form request _)
        | inr e ↦ rw e (Preserves-tokens _ (form-grants host settings net web service form _))
      ]

  opened-tokens :
      (form : LoginForm) → Preserves tokens_of (opened_request host settings net web service form)
  unfolding opened_request
  opened-tokens form = search (preserve_rules, now-tokens, submitted-tokens) depth 8

  pub authorize_login-tokens :
      (form : LoginForm) → Preserves tokens_of (authorize_login host settings net web service form)
  unfolding authorize_login
  authorize_login-tokens form = Transaction-tokens _ (opened-tokens form)
