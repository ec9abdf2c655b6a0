-- ===== src/Tests/Authorize.antt =====
-- The login page at concrete inputs.
use okk_analytics_codex_plug.Common.{◌≡◌, refl, subst, contains, none, some, [], ◌∷◌, split}
use okk_analytics_codex_plug.Effect.{World}
use okk_analytics_codex_plug.Oauth.Consent.{ConsentForm, granted_scope}
use okk_analytics_codex_plug.Oauth.Consent.Checked.{IsConsent, granted_scope-IsConsent}
use okk_analytics_codex_plug.Oauth.Authorize.{AuthRequest, LoginForm, Service}
use okk_analytics_codex_plug.Oauth.Authorize.Issued.{Issued}
use okk_analytics_codex_plug.Oauth.Invariant.{Allowed}
use okk_analytics_codex_plug.Gateway.Visits.{SignsAllowed}
use okk_analytics_codex_plug.Tests.Setup.{settings, verifier, world_with}

abbrev consent : ConsentForm
consent = record { consent_version = some "2"; grant_transcripts = some "1"; grant_phones = none }

granted_scope-IsConsent_example :
    IsConsent "email okk.phones.read" consent (granted_scope "email okk.phones.read" consent)
granted_scope-IsConsent_example = granted_scope-IsConsent "email okk.phones.read" consent

abbrev request : AuthRequest
request = record {
  client_id = "c1";
  redirect_uri = "https://chatgpt.com/connector";
  state = some "s";
  scope = "email okk.phones.read";
  resource = settings.resource_url;
  code_challenge = verifier;
  csrf_token = "csrf";
}

abbrev pub service : Service
service = record {
  sign = λ r. "signed";
  unsign = λ at s. some request;
  login_counts = λ n. some (1 ∷ 1 ∷ []);
}

abbrev pub form : LoginForm
form = record {
  authorization_request = "signed";
  csrf_token = "csrf";
  email = "anna@example.com";
  password = "secret";
  consent = consent;
}

same_request : {a b : AuthRequest} → some a ≡ some b → a ≡ b
same_request e = cc

-- the one page of the tests asks for allowed scopes
pub signs_allowed : SignsAllowed service
unfolding split contains
signs_allowed at text r e = subst (λ q. Allowed q.scope) (same_request e) refl

abbrev idle : World
idle = world_with [] []
