-- ===== src/Gateway/Spent.antt =====
-- A used authorization code stays used.
use okk_analytics_codex_plug.Common.{ℕ, String, ◌≡◌, refl, List, All, arith}
use okk_analytics_codex_plug.Effect.{Host, World}
use okk_analytics_codex_plug.Models.{Token}
use okk_analytics_codex_plug.Oauth.Types.{Settings}
use okk_analytics_codex_plug.Oauth.Invariant.{IsClosed, SpentAt}
use okk_analytics_codex_plug.Errors.{ok}
use okk_analytics_codex_plug.Oauth.Types.{TokenForm, Tokenless, token_response}
use okk_analytics_codex_plug.Oauth.CodeGrant.{code_hash}
use okk_analytics_codex_plug.Oauth.Token.{token_endpoint}
use okk_analytics_codex_plug.Oauth.Token.Once.{endpoint-Tokenless, endpoint_spends}
use okk_analytics_codex_plug.Gateway.{Call, serve}
use okk_analytics_codex_plug.Gateway.Invariance.{serve-Rows}

abbrev AnyToken : Token → Type 0
AnyToken t = Unit

SpentAt-IsClosed : (host : Host) (d : ℕ) (hash : String) → IsClosed host d (SpentAt hash) AnyToken
SpentAt-IsClosed host d hash = record {
  consumed = λ c at s e. refl;
  revoked = λ t at s. s;
  linked = λ t c r n x e s. s;
  from_code = λ c k id m n x bm bn e s. tt;
  from_refresh = λ t k id scope m x bm live allowed narrower s. tt;
}

any_token : (ts : List Token) → All AnyToken ts
any_token List.[] = tt
any_token (List.◌∷◌ t ts) = (tt, any_token ts)

pub spent_code_stays :
    (host : Host) (settings : Settings) (cs : List Call) (w : World) (hash : String)
    → All (SpentAt hash) w.codes
    → All (SpentAt hash) (serve host settings cs w).codes
spent_code_stays host settings cs w hash h =
    (serve-Rows host settings (SpentAt-IsClosed host w.draws hash) cs w (omega arith)
      (record { codes = h; tokens = any_token w.tokens })).codes

-- A code buys tokens once. When a token request with a code was answered with tokens, then whatever
-- is requested afterwards at `/token` and `/revoke` and with access tokens, no later request with a
-- code of the same hash is answered with tokens.
pub code_buys_once :
    (host : Host) (settings : Settings) (form later : TokenForm) (cs : List Call) (w : World)
    (a r s : String) (n : ℕ)
    → form.grant_type ≡ "authorization_code"
    → later.grant_type ≡ "authorization_code"
    → code_hash host later ≡ code_hash host form
    → (token_endpoint host settings form w).0 ≡ ok (token_response a r s n)
    → Tokenless
        (token_endpoint host settings later
          (serve host settings cs (token_endpoint host settings form w).1)).0
code_buys_once host settings form later cs w a r s n kind kind' same bought =
    endpoint-Tokenless host settings later _ kind' (
      spent_code_stays host settings cs _ (code_hash host later)
        (rw same (endpoint_spends host settings form w a r s n kind bought)))
