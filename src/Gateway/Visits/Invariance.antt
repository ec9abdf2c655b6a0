-- ===== src/Gateway/Visits/Invariance.antt =====
-- A property of the rows of codes and tokens through a history with logins.
use okk_analytics_codex_plug.Common.{
  ℕ, ◌≤◌, String, ◌≡◌, sym, subst, inl, inr, ◌⊎◌, List, [], ◌∷◌, All,
}
use native.Mathlib.Nat.{le_trans}
use okk_analytics_codex_plug.Errors.{Result}
use okk_analytics_codex_plug.Models.{Client, Code, Session, Token}
use okk_analytics_codex_plug.Effect.{Host, World, grants}
use okk_analytics_codex_plug.Effect.Keeps.{Keeps, keeps_rules}
use okk_analytics_codex_plug.ClientMetadata.Network.{Web}
use okk_analytics_codex_plug.Platform.Account.Accepted.{DrawnFrom}
use okk_analytics_codex_plug.Security.Redirects.{Net}
use okk_analytics_codex_plug.Security.Scopes.{allowed_scopes}
use okk_analytics_codex_plug.Oauth.Types.{Settings}
use okk_analytics_codex_plug.Oauth.Consent.Checked.{granted_scope-within}
use okk_analytics_codex_plug.Oauth.Invariant.{Allowed, Rows, IsClosed}
use okk_analytics_codex_plug.Oauth.Authorize.{AuthRequest, Page, LoginForm, Service}
use okk_analytics_codex_plug.Oauth.Authorize.Login.{issued_code, authorize_login}
use okk_analytics_codex_plug.Oauth.Authorize.Issued.{Issued, authorize_login-Issued}
use okk_analytics_codex_plug.Oauth.Authorize.Tokens.{authorize_login-tokens}
use okk_analytics_codex_plug.Gateway.Invariance.{handle-Rows}
use okk_analytics_codex_plug.Gateway.Visits.{Visit, client, sign_in, SignsAllowed, visit, attend}

-- A new code with an allowed scope, of a session that is drawn from the draw `d` on, has the property.
abbrev pub Admits : Host → Settings → ℕ → (Code → Type 0) → Type 0
Admits host settings d PC =
    (r : AuthRequest) (c : Client) (session : Session) (scope raw_code : String) (at : ℕ)
    → Allowed scope
    → DrawnFrom host d session
    → PC (issued_code host settings r c session scope raw_code at)

module _ (host : Host) (settings : Settings) (net : Net) (web : Web) (service : Service)
    (signs : SignsAllowed service) {d : ℕ} {PC : Code → Type 0} {PT : Token → Type 0}
    (closed : IsClosed host d PC PT) (admits : Admits host settings d PC) where
  codes-All :
      (form : LoginForm) (at k : ℕ) (before : List Code) (out : Result Page × World)
      → d ≤ k
      → All PC before
      → (out.1.codes ≡ before) ⊎ Issued host settings net web service form at k before out
      → All PC out.1.codes
  codes-All form at k before out later h (inl same) = subst (All PC) (sym same) h
  codes-All form at k before out later h (inr i) =
      let (n, from, drawn) = i.code.drawn in
      let allowed = signs at form.authorization_request i.request i.signed in
      subst (All PC) (sym i.code.codes) (
        admits i.request i.code.client i.code.session _ i.code.raw_code i.code.at
            (granted_scope-within i.request.scope form.consent allowed_scopes allowed)
            (n, le_trans later from, drawn),
        h,
      )

  login-Rows :
      (form : LoginForm) → Keeps d (Rows PC PT) (authorize_login host settings net web service form)
  login-Rows form =
      let tokens = authorize_login-tokens host settings net web service form in
      record {
        at = λ w later h. (
          record {
            codes =
                codes-All form (host.now w.readings) w.draws w.codes _ later h.codes
                  (authorize_login-Issued host settings net web service form w);
            tokens = subst (All PT) (sym (tokens.at w)) h.tokens;
          },
          tokens.grows w,
        );
      }

  visit-Rows : (v : Visit) → Keeps d (Rows PC PT) (visit host settings net web service v)
  unfolding visit
  visit-Rows (client c) = handle-Rows host settings closed c
  visit-Rows (sign_in form) = search (keeps_rules, login-Rows) depth 6

  pub attend-Rows :
      (vs : List Visit) (w : World)
      → d ≤ w.draws
      → Rows PC PT (grants w)
      → Rows PC PT (grants (attend host settings net web service vs w))
  unfolding attend
  attend-Rows [] w b h = h
  attend-Rows (v ∷ vs) w b h =
      let (h', grows) = (visit-Rows v).at w b h in
      attend-Rows vs (visit host settings net web service v w).1 (le_trans b grows) h'
