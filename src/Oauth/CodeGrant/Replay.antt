-- ===== src/Oauth/CodeGrant/Replay.antt =====
-- What the exchange of a code that was used already does.
use okk_analytics_codex_plug.Common.{
  ℕ, suc, ◌≡◌, refl, sym, ap, subst, true, some, List, All, is_some, ◌==◌, not, ◌&&◌, arith,
}
use okk_analytics_codex_plug.Errors.{Result, ok}
use okk_analytics_codex_plug.Models.{Code, Token}
use okk_analytics_codex_plug.Models.Rows.{update_where-makes}
use okk_analytics_codex_plug.Effect.{Host, World}
use okk_analytics_codex_plug.Platform.Context.Frame.{revoke_upstream-grants}
use okk_analytics_codex_plug.Platform.Context.Revocation.{Revocable, revoke_upstream_returns}
use okk_analytics_codex_plug.Oauth.Types.{Settings, TokenForm, Reply}
use okk_analytics_codex_plug.Oauth.Store.{find_code, invalid_grant, revoke_where}
use okk_analytics_codex_plug.Oauth.CodeGrant.{
  has_code_fields, code_hash, revoke_replayed_code_grant, replayed_code, presented_code,
  look_up_code, code_grant,
}

-- a token of the session is revoked
abbrev pub EndedIn : ℕ → Token → Type 0
EndedIn sid t = t.session_id ≡ sid → is_some t.revoked_at ≡ true

revoke_where-ended :
    (sid at : ℕ) (rows : List Token)
    → All (EndedIn sid) (revoke_where (λ t. t.session_id == sid) at rows)
revoke_where-ended sid at rows =
    update_where-makes (EndedIn sid) (λ t. t.session_id == sid && not (is_some t.revoked_at))
      (λ t. record t { revoked_at = some at }) rows (λ t e. refl)
      (λ t miss e. ground (arith, miss, e))

-- what the exchange of a used code leaves
pub record Replayed (sid : ℕ) (codes : List Code) (out : Result Reply × World) : Type 0 where
  pub reply : out.0 ≡ ok (invalid_grant "Authorization code reuse detected; session revoked")
  pub ended : All (EndedIn sid) out.1.tokens
  pub same_codes : out.1.codes ≡ codes

module _ (host : Host) (settings : Settings) where
  replayed_code-Replayed :
      (stored : Code) (w : World)
      → Revocable host stored.session_id w.sessions
      → Replayed stored.session_id w.codes (replayed_code host settings stored w)
  unfolding replayed_code revoke_replayed_code_grant
  replayed_code-Replayed stored w h =
      let at = host.now w.readings in
      let w' = record w {
        readings = suc w.readings;
        db = record w.db {
          tokens = revoke_where (λ t. t.session_id == stored.session_id) at w.tokens;
        };
      } in
      let kept = (revoke_upstream-grants host stored.session_id).at w' in
      let returns = revoke_upstream_returns host stored.session_id w' h in
      record {
        reply = rw returns;
        ended = rw returns (
            subst (All (EndedIn stored.session_id)) (sym (ap (λ g. g.2) kept))
              (revoke_where-ended stored.session_id at w.tokens));
        same_codes = rw returns (ap (λ g. g.1) kept);
      }

  -- When a code that was used already is presented again with the three fields, and its OKK session
  -- is gone, revoked or readable, the exchange answers that reuse was detected, revokes every token
  -- of the session, and leaves the codes as they were.
  pub code_replay_ends_session :
      (form : TokenForm) (w : World) (stored : Code)
      → has_code_fields form ≡ true
      → find_code (code_hash host form) w.codes ≡ some stored
      → is_some stored.consumed_at ≡ true
      → Revocable host stored.session_id w.sessions
      → Replayed stored.session_id w.codes (code_grant host settings form w)
  unfolding code_grant look_up_code presented_code
  code_replay_ends_session form w stored fields found used h =
      rw (fields, found, used) (replayed_code-Replayed stored w h)
