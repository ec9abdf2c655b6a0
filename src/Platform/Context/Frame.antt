-- ===== src/Platform/Context/Frame.antt =====
-- Verifying and revoking an OKK session leaves the clients, codes and tokens alone.
use okk_analytics_codex_plug.Common.{ℕ, String, Option, none, some}
use okk_analytics_codex_plug.Models.{Session}
use okk_analytics_codex_plug.Effect.{Host, Response, grants}
use okk_analytics_codex_plug.Effect.Preserves.{Preserves, preserve_rules}
use okk_analytics_codex_plug.Platform.Account.Frame.{
  send-grants, now-grants, opened-grants, get_me-grants,
}
use okk_analytics_codex_plug.Platform.Rotation.Frame.{
  active_session-grants, set_session-grants, rotate_session-grants,
}
use okk_analytics_codex_plug.Platform.Account.{UserFields}
use okk_analytics_codex_plug.Platform.Context.{
  verified_user, record_context, live_context, revoke_row, revoke_upstream,
}

module _ (host : Host) where
  verified_user-grants :
      (sid : ℕ) (a : String) (r : Response) → Preserves grants (verified_user host sid a r)
  unfolding verified_user
  verified_user-grants sid a r = search (preserve_rules, rotate_session-grants) depth 10

  record_context-grants :
      (sid : ℕ) (u a : String) (f : UserFields) → Preserves grants (record_context host sid u a f)
  unfolding record_context
  record_context-grants sid u a f =
      search (preserve_rules, active_session-grants, now-grants, set_session-grants) depth 14

  pub live_context-grants : (sid : ℕ) → Preserves grants (live_context host sid)
  unfolding live_context
  live_context-grants sid =
      search
        (
          preserve_rules, active_session-grants, opened-grants, get_me-grants, verified_user-grants,
          record_context-grants,
        )
        depth 16

  revoke_row-grants : (o : Option Session) (sid : ℕ) → Preserves grants (revoke_row host o sid)
  unfolding revoke_row
  revoke_row-grants none sid = search preserve_rules
  revoke_row-grants (some row) sid =
      search (preserve_rules, opened-grants, now-grants, set_session-grants, send-grants) depth 16

  pub revoke_upstream-grants : (sid : ℕ) → Preserves grants (revoke_upstream host sid)
  unfolding revoke_upstream
  revoke_upstream-grants sid = search (preserve_rules, revoke_row-grants) depth 8
