-- ===== src/Oauth/RefreshGrant/Frame.antt =====
-- The retry and the account check of a refresh leave the clients, codes and tokens alone.
use okk_analytics_codex_plug.Common.{Option, none, some}
use okk_analytics_codex_plug.Errors.{Exc, authentication_error, unavailable}
use okk_analytics_codex_plug.Models.{Token}
use okk_analytics_codex_plug.Effect.{Host, grants}
use okk_analytics_codex_plug.Effect.Preserves.{Preserves, preserve_rules}
use okk_analytics_codex_plug.Platform.Account.Frame.{now-grants, opened-grants}
use okk_analytics_codex_plug.Platform.Context.Frame.{live_context-grants}
use okk_analytics_codex_plug.Oauth.Types.{Settings}
use okk_analytics_codex_plug.Oauth.RefreshGrant.{
  retry_pair, retried_rotation, context_failed, checked_account,
}

module _ (host : Host) (settings : Settings) where
  retry_pair-grants :
      (t : Token) (o : Option Token) → Preserves grants (retry_pair host settings t o)
  unfolding retry_pair
  retry_pair-grants t none = search preserve_rules
  retry_pair-grants t (some s) = search (preserve_rules, opened-grants) depth 8

  pub retried_rotation-grants : (t : Token) → Preserves grants (retried_rotation host settings t)
  unfolding retried_rotation
  retried_rotation-grants t = search (preserve_rules, now-grants, retry_pair-grants) depth 10

  context_failed-grants : (e : Exc) → Preserves grants (context_failed host settings e)
  unfolding context_failed
  context_failed-grants (authentication_error m) = search preserve_rules
  context_failed-grants (unavailable m) = search preserve_rules
  context_failed-grants _ = search preserve_rules

  pub checked_account-grants : (t : Token) → Preserves grants (checked_account host settings t)
  unfolding checked_account
  checked_account-grants t =
      search (preserve_rules, live_context-grants, context_failed-grants) depth 8
