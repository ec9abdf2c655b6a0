-- ===== src/Gateway/Family.antt =====
-- What every token of a family shares: the OKK session, the resource and at most the first scope.
use okk_analytics_codex_plug.Common.{
  ℕ, ◌≤◌, ◌≡◌, ◌≢◌, String, true, List, All, split, subset, subset_trans, arith,
}
use okk_analytics_codex_plug.Effect.{Host, World}
use okk_analytics_codex_plug.Models.{Token}
use okk_analytics_codex_plug.Oauth.Types.{Settings}
use okk_analytics_codex_plug.Oauth.Invariant.{IsClosed}
use okk_analytics_codex_plug.Gateway.{Call, serve}
use okk_analytics_codex_plug.Gateway.Invariance.{serve-Rows}
use okk_analytics_codex_plug.Gateway.Revoked.{AnyCode, any_code}

-- what a token may do, if it is of the family
pub record Bound (scopes : List String) (session_id : ℕ) (resource : String) (t : Token)
    : Type 0 where
  pub scope : subset (split t.scope) scopes ≡ true
  pub session : t.session_id ≡ session_id
  pub target : t.resource ≡ resource

abbrev pub BoundIn : ℕ → List String → ℕ → String → Token → Type 0
BoundIn family scopes session_id resource t =
    t.family_id ≡ family → Bound scopes session_id resource t

module _ (scopes : List String) (session_id : ℕ) (resource : String) where
  BoundIn-IsClosed :
      (host : Host) (d family : ℕ)
      → ((n : ℕ) → d ≤ n → host.uuid n ≢ family)
      → IsClosed host d AnyCode (BoundIn family scopes session_id resource)
  BoundIn-IsClosed host d family fresh = record {
    consumed = λ c at s. s;
    revoked =
        λ t at s f. record { scope = (s f).scope; session = (s f).session; target = (s f).target };
    linked = λ t c r n x e s f. record {
      scope = (s f).scope;
      session = (s f).session;
      target = (s f).target;
    };
    from_code = λ c k id m n x bm bn e s f. absurd (fresh n bn f);
    from_refresh = λ t k id scope m x bm live allowed narrower s f. record {
      scope = subset_trans (split scope) (split t.scope) scopes narrower (s f).scope;
      session = (s f).session;
      target = (s f).target;
    };
  }

-- When every stored token of a family is bound to a session, a resource and a set of scopes, then
-- whatever is requested at `/token` and `/revoke` and with access tokens, every stored token of the
-- family still is: refreshing never widens the scope. No UUID drawn from now on may
-- repeat the family's id.
pub family_stays_bound :
    (host : Host) (settings : Settings) (cs : List Call) (w : World) (family : ℕ)
    (scopes : List String) (session_id : ℕ) (resource : String)
    → ((n : ℕ) → w.draws ≤ n → host.uuid n ≢ family)
    → All (BoundIn family scopes session_id resource) w.tokens
    → All (BoundIn family scopes session_id resource) (serve host settings cs w).tokens
family_stays_bound host settings cs w family scopes session_id resource fresh h =
    (serve-Rows host settings
      (BoundIn-IsClosed scopes session_id resource host w.draws family fresh) cs w (omega arith)
      (record { codes = any_code w.codes; tokens = h })).tokens
