-- ===== src/Gateway/Invariance.antt =====
-- A property of the rows of codes and tokens through a history of requests.
use okk_analytics_codex_plug.Common.{ℕ, ◌≤◌, List, [], ◌∷◌}
use native.Mathlib.Nat.{le_trans}
use okk_analytics_codex_plug.Models.{Code, Token}
use okk_analytics_codex_plug.Effect.{Host, World, grants}
use okk_analytics_codex_plug.Effect.Keeps.{Keeps, Keeps-frame, keeps_rules}
use okk_analytics_codex_plug.Oauth.Types.{Settings}
use okk_analytics_codex_plug.Oauth.Invariant.{Rows, IsClosed}
use okk_analytics_codex_plug.Oauth.Token.Invariance.{
  token_endpoint-Rows, revoke_token-Rows, verify_token-grants,
}
use okk_analytics_codex_plug.Gateway.{Call, token, revoke, verify, handle, serve}

module _ (host : Host) (settings : Settings) {d : ℕ} {PC : Code → Type 0} {PT : Token → Type 0}
    (closed : IsClosed host d PC PT) where
  pub handle-Rows : (c : Call) → Keeps d (Rows PC PT) (handle host settings c)
  unfolding handle
  handle-Rows (token form) = search (keeps_rules, token_endpoint-Rows) depth 6
  handle-Rows (revoke t id) = search (keeps_rules, revoke_token-Rows) depth 6
  handle-Rows (verify t) = search (keeps_rules, Keeps-frame, verify_token-grants) depth 6

  pub serve-Rows :
      (cs : List Call) (w : World)
      → d ≤ w.draws
      → Rows PC PT (grants w)
      → Rows PC PT (grants (serve host settings cs w))
  unfolding serve
  serve-Rows [] w b h = h
  serve-Rows (c ∷ cs) w b h =
      let (h', grows) = (handle-Rows c).at w b h in
      serve-Rows cs (handle host settings c w).1 (le_trans b grows) h'
