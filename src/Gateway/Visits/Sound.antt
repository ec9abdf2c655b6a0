-- ===== src/Gateway/Visits/Sound.antt =====
-- What holds of every stored code and token, whatever was requested and whoever signed in.
use okk_analytics_codex_plug.Common.{◌≡◌, refl, true, none, List, is_some, arith}
use okk_analytics_codex_plug.Effect.{Host, World, grants}
use okk_analytics_codex_plug.Models.{Code, Token, TokenType, access, refresh, is_refresh}
use okk_analytics_codex_plug.Oauth.Types.{Settings}
use okk_analytics_codex_plug.Oauth.Invariant.{Allowed, Rows, IsClosed}
use okk_analytics_codex_plug.ClientMetadata.Network.{Web}
use okk_analytics_codex_plug.Security.Redirects.{Net}
use okk_analytics_codex_plug.Oauth.Authorize.{Service}
use okk_analytics_codex_plug.Gateway.Visits.{Visit, SignsAllowed, attend}
use okk_analytics_codex_plug.Gateway.Visits.Invariance.{Admits, attend-Rows}

pub record TokenSound (t : Token) : Type 0 where
  -- a token opens nothing but the gateway's own scopes
  pub scope_allowed : Allowed t.scope
  -- a used refresh token is dead, and names its successor
  pub used_is_revoked : is_some t.consumed_at ≡ true → is_some t.revoked_at ≡ true
  pub used_is_replaced : is_some t.consumed_at ≡ is_some t.replaced_by_hash
  -- an access token is never used up
  pub access_unused : t.token_type ≡ access → t.consumed_at ≡ none

pub record CodeSound (c : Code) : Type 0 where
  pub scope_allowed : Allowed c.scope

abbrev pub IsSound : World → Type 0
IsSound w = Rows CodeSound TokenSound (grants w)

not_access : {R : Type 0} (k : TokenType) → is_refresh k ≡ true → k ≡ access → R
not_access access e a = cc
not_access refresh e a = cc

Sound-IsClosed : (host : Host) → IsClosed host 0 CodeSound TokenSound
Sound-IsClosed host = record {
  consumed = λ c at s. record { scope_allowed = s.scope_allowed };
  revoked = λ t at s. record {
    scope_allowed = s.scope_allowed;
    used_is_revoked = λ _. refl;
    used_is_replaced = s.used_is_replaced;
    access_unused = s.access_unused;
  };
  linked = λ t c r n x e s. record {
    scope_allowed = s.scope_allowed;
    used_is_revoked = λ _. refl;
    used_is_replaced = refl;
    access_unused = not_access t.token_type e;
  };
  from_code = λ c k id m n x bm bn e s. record {
    scope_allowed = s.scope_allowed;
    used_is_revoked = λ h. cc;
    used_is_replaced = refl;
    access_unused = λ _. refl;
  };
  from_refresh = λ t k id scope m x bm live allowed narrower s. record {
    scope_allowed = allowed;
    used_is_revoked = λ h. cc;
    used_is_replaced = refl;
    access_unused = λ _. refl;
  };
}

Sound-Admits : (host : Host) (settings : Settings) → Admits host settings 0 CodeSound
Sound-Admits host settings r c session scope raw_code at allowed drawn = record {
  scope_allowed = allowed;
}

-- Where login pages are signed for allowed scopes only: from sound tables, whatever is requested at
-- `/token`, `/revoke` and with access tokens and whichever login pages are submitted, every stored code
-- and token has only allowed scopes, every used refresh token is revoked and names its successor, and
-- no access token is used up.
pub attend-IsSound :
    (host : Host) (settings : Settings) (net : Net) (web : Web) (service : Service)
    (vs : List Visit) (w : World)
    → SignsAllowed service
    → IsSound w
    → IsSound (attend host settings net web service vs w)
attend-IsSound host settings net web service vs w signs h =
    attend-Rows host settings net web service signs (Sound-IsClosed host)
      (Sound-Admits host settings) vs w (omega arith) h
