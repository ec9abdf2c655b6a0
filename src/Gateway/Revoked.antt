-- ===== src/Gateway/Revoked.antt =====
-- A revoked family of tokens stays revoked.
use okk_analytics_codex_plug.Common.{ℕ, ◌≤◌, ◌≢◌, refl, List, All, arith}
use okk_analytics_codex_plug.Effect.{Host, World}
use okk_analytics_codex_plug.Models.{Code}
use okk_analytics_codex_plug.Oauth.Types.{Settings}
use okk_analytics_codex_plug.Oauth.Invariant.{IsClosed, DeadIn}
use okk_analytics_codex_plug.Gateway.{Call, serve}
use okk_analytics_codex_plug.Gateway.Invariance.{serve-Rows}

abbrev pub AnyCode : Code → Type 0
AnyCode c = Unit

DeadIn-IsClosed :
    (host : Host) (d family : ℕ)
    → ((n : ℕ) → d ≤ n → host.uuid n ≢ family)
    → IsClosed host d AnyCode (DeadIn family)
DeadIn-IsClosed host d family fresh = record {
  consumed = λ c at s. s;
  revoked = λ t at s e. refl;
  linked = λ t c r n x e s f. refl;
  from_code = λ c k id m n x bm bn e s f. absurd (fresh n bn f);
  from_refresh = λ t k id scope m x bm live allowed narrower s f. cc (s f);
}

pub any_code : (cs : List Code) → All AnyCode cs
any_code List.[] = tt
any_code (List.◌∷◌ c cs) = (tt, any_code cs)

-- Once every token of a family is revoked, whatever is requested later at `/token` and `/revoke` and
-- with access tokens, every stored token of the family is revoked, provided no UUID drawn from now on repeats the family's id.
pub revoked_family_stays :
    (host : Host) (settings : Settings) (cs : List Call) (w : World) (family : ℕ)
    → ((n : ℕ) → w.draws ≤ n → host.uuid n ≢ family)
    → All (DeadIn family) w.tokens
    → All (DeadIn family) (serve host settings cs w).tokens
revoked_family_stays host settings cs w family fresh h =
    (serve-Rows host settings (DeadIn-IsClosed host w.draws family fresh) cs w (omega arith)
      (record { codes = any_code w.codes; tokens = h })).tokens
