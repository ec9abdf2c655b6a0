-- ===== src/Oauth/Authorize/Issued.antt =====
-- When the login of server/okk_mcp/oauth.py issues an authorization code.
use okk_analytics_codex_plug.Common.{
  ℕ, suc, ◌≤◌, String, ◌≡◌, refl, Bool-cases, inl, inr, ◌⊎◌, Option, none, some, List, str_eq,
  eq_iff, arith,
}
use okk_analytics_codex_plug.Errors.{Result, ok, raised, http_exception}
use okk_analytics_codex_plug.Models.{Client, Code}
use okk_analytics_codex_plug.Effect.{Host, World, grants, draw}
use okk_analytics_codex_plug.Effect.Preserves.{Preserves, preserve_rules}
use okk_analytics_codex_plug.ClientMetadata.Network.{Web}
use okk_analytics_codex_plug.Platform.Account.Frame.{now-grants}
use okk_analytics_codex_plug.Security.Redirects.{Net}
use okk_analytics_codex_plug.Oauth.Consent.{granted_scope}
use okk_analytics_codex_plug.Oauth.Types.{Settings}
use okk_analytics_codex_plug.Oauth.Store.{in_transaction, rolled_back}
use okk_analytics_codex_plug.Oauth.Authorize.{AuthRequest, Page, LoginForm, Service}
use okk_analytics_codex_plug.Oauth.Authorize.Frame.{load_client-grants}
use okk_analytics_codex_plug.Oauth.Authorize.Login.{
  reloaded_form, refresh_unsigned, refresh_authorization_form, submitted, opened_request,
  authorize_login,
}
use okk_analytics_codex_plug.Oauth.Authorize.Codes.{codes_kept, CodeFor, log_in-Outcome}

draw-grants : (host : Host) → Preserves grants (draw host)
draw-grants host = record { at = λ w. refl; grows = λ w. omega arith }

module _ (host : Host) (settings : Settings) (net : Net) (web : Web) (service : Service) where
  -- the form that is shown again
  reloaded-grants :
      (request : AuthRequest) (scope : String) (r : Result Client)
      → Preserves grants (reloaded_form host settings net web service request scope r)
  unfolding reloaded_form
  reloaded-grants request scope (raised (http_exception n m)) = search preserve_rules
  reloaded-grants request scope (raised _) = search preserve_rules
  reloaded-grants request scope (ok client) = search (preserve_rules, draw-grants host) depth 8

  refresh-grants :
      (scope : String) (o : Option AuthRequest)
      → Preserves grants (refresh_unsigned host settings net web service scope o)
  unfolding refresh_unsigned
  refresh-grants scope none = search preserve_rules
  refresh-grants scope (some request) =
      search (preserve_rules, load_client-grants host settings net web service, reloaded-grants)
        depth 8

  pub form-grants :
      (form : LoginForm) (scope : String)
      → Preserves grants (refresh_authorization_form host settings net web service form scope)
  unfolding refresh_authorization_form
  form-grants form scope = search (preserve_rules, now-grants, refresh-grants) depth 8

  -- What the submitted form led to: no new code, or one for the request that the form carries, whose
  -- CSRF token the form repeats.
  pub record Issued (form : LoginForm) (at d : ℕ) (before : List Code) (out : Result Page × World)
      : Type 0 where
    pub request : AuthRequest
    pub signed : service.unsign at form.authorization_request ≡ some request
    pub csrf : request.csrf_token ≡ form.csrf_token
    pub code :
        CodeFor host settings net web service form request
          (granted_scope request.scope form.consent)
          d
          before
          out

  submitted-Issued :
      (form : LoginForm) (at d : ℕ) (o : Option AuthRequest) (w : World)
      → service.unsign at form.authorization_request ≡ o
      → d ≤ w.draws
      → ((submitted host settings net web service form o w).1.codes ≡ w.codes)
        ⊎ Issued form at d w.codes (submitted host settings net web service form o w)
  unfolding submitted
  submitted-Issued form at d none w h later = inl refl
  submitted-Issued form at d (some request) w h later =
      let scope = granted_scope request.scope form.consent in
      elim (Bool-cases (str_eq request.csrf_token form.csrf_token)) [
        | inr e ↦ rw e (
            inl (
              codes_kept (refresh_authorization_form host settings net web service form scope) w
                (form-grants form scope)))
        | inl e ↦
            rw e (elim (log_in-Outcome host settings net web service form request scope d w later) [
              | inl same ↦ inl same
              | inr code ↦ inr (record {
                request = request;
                signed = h;
                csrf = (eq_iff request.csrf_token form.csrf_token).0 e;
                code = code;
              })
            ])
      ]

  -- a transaction keeps the codes of an answer, and restores those of before otherwise
  committed :
      (form : LoginForm) (at d : ℕ) (w : World) (out : Result Page × World)
      → (out.1.codes ≡ w.codes) ⊎ Issued form at d w.codes out
      → ((rolled_back w out).1.codes ≡ w.codes) ⊎ Issued form at d w.codes (rolled_back w out)
  unfolding rolled_back
  committed form at d w (ok page, w') h = h
  committed form at d w (raised e, w') h = inl refl

  pub authorize_login-Issued :
      (form : LoginForm) (w : World)
      → ((authorize_login host settings net web service form w).1.codes ≡ w.codes)
        ⊎ Issued form
            (host.now w.readings)
            w.draws
            w.codes
            (authorize_login host settings net web service form w)
  unfolding authorize_login in_transaction opened_request
  authorize_login-Issued form w =
      committed form (host.now w.readings) w.draws w
        (opened_request host settings net web service form w)
        (submitted-Issued form (host.now w.readings) w.draws _
          (record w { readings = suc w.readings }) refl (omega arith))
