-- ===== src/Gateway/Visits/Ended.antt =====
-- A sign-in whose tokens were all revoked stays ended.
use okk_analytics_codex_plug.Common.{ℕ, ◌≤◌, ◌≡◌, ◌≢◌, refl, true, List, All, is_some, arith}
use okk_analytics_codex_plug.Effect.{Host, World, grants}
use okk_analytics_codex_plug.Models.{Code}
use okk_analytics_codex_plug.Oauth.Types.{Settings}
use okk_analytics_codex_plug.Oauth.Invariant.{Rows, IsClosed}
use okk_analytics_codex_plug.Oauth.CodeGrant.Replay.{EndedIn}
use okk_analytics_codex_plug.ClientMetadata.Network.{Web}
use okk_analytics_codex_plug.Security.Redirects.{Net}
use okk_analytics_codex_plug.Oauth.Authorize.{Service}
use okk_analytics_codex_plug.Gateway.Visits.{Visit, SignsAllowed, attend}
use okk_analytics_codex_plug.Gateway.Visits.Invariance.{Admits, attend-Rows}

-- every code of the session is used
abbrev pub UsedIn : ℕ → Code → Type 0
UsedIn sid c = c.session_id ≡ sid → is_some c.consumed_at ≡ true

EndedIn-IsClosed : (host : Host) (d sid : ℕ) → IsClosed host d (UsedIn sid) (EndedIn sid)
EndedIn-IsClosed host d sid = record {
  consumed = λ c at s e. refl;
  revoked = λ t at s e. refl;
  linked = λ t c r n x e s f. refl;
  from_code = λ c k id m n x bm bn e s f. cc (s f);
  from_refresh = λ t k id scope m x bm live allowed narrower s f. cc (s f);
}

-- a new code is of another session
UsedIn-Admits :
    (host : Host) (settings : Settings) (d sid : ℕ)
    → ((n : ℕ) → d ≤ n → host.uuid n ≢ sid)
    → Admits host settings d (UsedIn sid)
UsedIn-Admits host settings d sid fresh r c session scope raw_code at allowed (n, from, drawn) e =
    absurd (fresh n from (cc))

-- Where later draws of UUIDs are not the session's id and login pages are signed for allowed scopes
-- only: once the codes of an OKK session are all used and its tokens all revoked, then whatever is
-- requested at `/token`, `/revoke` and with access tokens and whichever login pages are submitted, every
-- stored code of the session is used and every stored token of it is revoked. The sign-in never comes
-- back to life.
pub ended_session_stays :
    (host : Host) (settings : Settings) (net : Net) (web : Web) (service : Service)
    (vs : List Visit) (w : World) (sid : ℕ)
    → SignsAllowed service
    → ((n : ℕ) → w.draws ≤ n → host.uuid n ≢ sid)
    → All (UsedIn sid) w.codes
    → All (EndedIn sid) w.tokens
    → Rows (UsedIn sid) (EndedIn sid) (grants (attend host settings net web service vs w))
ended_session_stays host settings net web service vs w sid signs fresh codes tokens =
    attend-Rows host settings net web service signs (EndedIn-IsClosed host w.draws sid)
      (UsedIn-Admits host settings w.draws sid fresh) vs w (omega arith)
      (record { codes = codes; tokens = tokens })
