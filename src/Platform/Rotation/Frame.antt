-- ===== src/Platform/Rotation/Frame.antt =====
-- The renewal of an OKK access token leaves the clients, codes and tokens alone.
use okk_analytics_codex_plug.Common.{ℕ, String, refl, arith}
use okk_analytics_codex_plug.Errors.{Exc, authentication_error}
use okk_analytics_codex_plug.Models.{Session}
use okk_analytics_codex_plug.Effect.{Host, grants}
use okk_analytics_codex_plug.Effect.Preserves.{Preserves, preserve_rules}
use okk_analytics_codex_plug.Platform.Account.Frame.{
  now-grants, seal-grants, opened-grants, get_me-grants, refresh_session-grants,
}
use okk_analytics_codex_plug.Platform.Rotation.{
  active_session, set_session, remember, revoke_refused, renew_session, adopt_renewed,
  rotate_session,
}

pub active_session-grants : (sid : ℕ) → Preserves grants (active_session sid)
unfolding active_session
active_session-grants sid = record { at = λ w. refl; grows = λ w. omega arith }

pub set_session-grants : (sid : ℕ) (f : Session → Session) → Preserves grants (set_session sid f)
set_session-grants sid f = record { at = λ w. refl; grows = λ w. omega arith }

remember-grants : (sid : ℕ) (a b : String) → Preserves grants (remember sid a b)
remember-grants sid a b = record { at = λ w. refl; grows = λ w. omega arith }

module _ (host : Host) where
  revoke_refused-grants : (sid : ℕ) (e : Exc) → Preserves grants (revoke_refused host sid e)
  unfolding revoke_refused
  revoke_refused-grants sid (authentication_error m) =
      search (preserve_rules, set_session-grants, now-grants) depth 10
  revoke_refused-grants sid _ = search preserve_rules

  renew_session-grants :
      (sid : ℕ) (a : String) (row : Session) → Preserves grants (renew_session host sid a row)
  unfolding renew_session
  renew_session-grants sid a row =
      search
        (
          preserve_rules, set_session-grants, seal-grants, opened-grants, remember-grants,
          refresh_session-grants, revoke_refused-grants,
        )
        depth 16

  adopt_renewed-grants : (sid : ℕ) (a b : String) → Preserves grants (adopt_renewed host sid a b)
  unfolding adopt_renewed
  adopt_renewed-grants sid a b = search (preserve_rules, remember-grants, get_me-grants) depth 12

  pub rotate_session-grants : (sid : ℕ) (a : String) → Preserves grants (rotate_session host sid a)
  unfolding rotate_session
  rotate_session-grants sid a =
      search
        (
          preserve_rules, active_session-grants, opened-grants, renew_session-grants,
          adopt_renewed-grants,
        )
        depth 12
