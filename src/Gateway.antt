-- ===== src/Gateway.antt =====
-- Histories of requests to `/token` and `/revoke` of server/okk_mcp/oauth.py and of requests that carry
-- an access token; Visits has the histories with logins between them. Each request runs to its end; an
-- exception ends its own request only, and the next one meets the tables that it left.
pub mod Invariance
pub mod Revoked
pub mod Spent
pub mod Visits
pub mod Family
pub mod Stolen
use okk_analytics_codex_plug.Common.{String, List, [], ◌∷◌}
use okk_analytics_codex_plug.Effect.{Host, World, Action, pure, ◌>>=◌, ◌>>◌}
use okk_analytics_codex_plug.Oauth.Types.{Settings, TokenForm}
use okk_analytics_codex_plug.Oauth.Token.{token_endpoint, revoke_token, verify_token}

pub data Call : Type 0 where
  -- `POST /token`
  token : TokenForm → Call
  -- `POST /revoke` with a token and a client id
  revoke : String → String → Call
  -- a request that carries an access token
  verify : String → Call

module _ (host : Host) (settings : Settings) where
  unfoldable pub handle : Call → Action (Unit {0})
  handle (token form) = token_endpoint host settings form >> pure tt
  handle (revoke presented id) = revoke_token host settings presented id >> pure tt
  handle (verify presented) = verify_token host settings.resource_url presented >> pure tt

  unfoldable pub serve : List Call → World → World
  serve [] w = w
  serve (c ∷ cs) w = serve cs (handle c w).1
