-- ===== src/Gateway/Stolen.antt =====
-- A refresh token that is used twice ends its family for good.
use okk_analytics_codex_plug.Common.{ℕ, String, ◌≡◌, ◌≢◌, ◌≤◌, none, some, List, ap}
use okk_analytics_codex_plug.Errors.{ok}
use okk_analytics_codex_plug.Effect.{Host, World}
use okk_analytics_codex_plug.Models.{Client, Token}
use okk_analytics_codex_plug.Platform.Context.Revocation.{Revocable}
use okk_analytics_codex_plug.Oauth.Types.{Settings, TokenForm}
use okk_analytics_codex_plug.Oauth.Store.{find_client}
use okk_analytics_codex_plug.Oauth.RefreshGrant.Reuse.{IsReuse}
use okk_analytics_codex_plug.Oauth.Token.{token_endpoint, verify_token}
use okk_analytics_codex_plug.Oauth.Token.Reuse.{
  endpoint_ends_family, find_access, dead_access_refused,
}
use okk_analytics_codex_plug.Gateway.{Call, serve}
use okk_analytics_codex_plug.Gateway.Revoked.{revoked_family_stays}

-- After a used refresh token was presented again outside the retry window (its OKK session gone,
-- revoked or readable), then whatever is requested at `/token` and `/revoke` and with access tokens,
-- an access token whose stored row belongs to the family is refused, provided no UUID
-- drawn after the reuse repeats the family's id.
pub stolen_family_is_refused :
    (host : Host) (settings : Settings) (form : TokenForm) (w : World) (client : Client)
    (stored member : Token) (cs : List Call) (resource_url token : String)
    → form.grant_type ≡ "refresh_token"
    → find_client form.client_id w.clients ≡ some client
    → IsReuse host settings form w stored
    → Revocable host stored.session_id w.sessions
    → ((n : ℕ) → (token_endpoint host settings form w).1.draws ≤ n → host.uuid n ≢ stored.family_id)
    → find_access
        (host.sha256_hex token)
        (serve host settings cs (token_endpoint host settings form w).1).tokens
      ≡ some member
    → member.family_id ≡ stored.family_id
    → (verify_token host resource_url token
        (serve host settings cs (token_endpoint host settings form w).1)).0
      ≡ ok none
stolen_family_is_refused host settings form w client stored member cs resource_url token kind known
      r h fresh found same =
    let after = (token_endpoint host settings form w).1 in
    let dead = (endpoint_ends_family host settings form w client kind known stored r h).1 in
    ap (λ p. p.0)
      (dead_access_refused host resource_url token stored.family_id (serve host settings cs after)
        member (revoked_family_stays host settings cs after stored.family_id fresh dead) found same)
