-- ===== src/Gateway/Visits.antt =====
-- Histories in which people also sign in: the endpoints of server/okk_mcp/oauth.py with the submitted
-- login pages between the requests of the clients.
pub mod Invariance
pub mod Sound
pub mod Ended
use okk_analytics_codex_plug.Common.{ℕ, String, ◌≡◌, some, List, [], ◌∷◌}
use okk_analytics_codex_plug.Effect.{Host, World, Action, pure, ◌>>◌}
use okk_analytics_codex_plug.ClientMetadata.Network.{Web}
use okk_analytics_codex_plug.Security.Redirects.{Net}
use okk_analytics_codex_plug.Oauth.Types.{Settings}
use okk_analytics_codex_plug.Oauth.Invariant.{Allowed}
use okk_analytics_codex_plug.Oauth.Authorize.{AuthRequest, LoginForm, Service}
use okk_analytics_codex_plug.Oauth.Authorize.Login.{authorize_login}
use okk_analytics_codex_plug.Gateway.{Call, handle}

pub data Visit : Type 0 where
  -- `POST /token`, `POST /revoke` or a request that carries an access token
  client : Call → Visit
  -- `POST /authorize`
  sign_in : LoginForm → Visit

-- A login page that carries our signature asks for no scope but the gateway's own: `authorize` checks
-- the scope of a request before it signs it.
abbrev pub SignsAllowed : Service → Type 0
SignsAllowed service =
    (at : ℕ) (text : String) (r : AuthRequest) → service.unsign at text ≡ some r → Allowed r.scope

module _ (host : Host) (settings : Settings) (net : Net) (web : Web) (service : Service) where
  unfoldable pub visit : Visit → Action (Unit {0})
  visit (client c) = handle host settings c
  visit (sign_in form) = authorize_login host settings net web service form >> pure tt

  unfoldable pub attend : List Visit → World → World
  attend [] w = w
  attend (v ∷ vs) w = attend vs (visit v w).1
