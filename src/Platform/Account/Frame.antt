-- ===== src/Platform/Account/Frame.antt =====
-- The calls of the account endpoints leave the clients, codes and tokens alone.
use okk_analytics_codex_plug.Common.{String, Option, none, some, refl, arith}
use okk_analytics_codex_plug.Effect.{Host, Answer, Request, grants, send, now, uuid4}
use okk_analytics_codex_plug.Effect.Preserves.{Preserves, preserve_rules}
use okk_analytics_codex_plug.Crypto.{seal, opened}
use okk_analytics_codex_plug.Platform.Account.{
  get_me, refresh_session, opened_session, authenticate,
}

module _ (host : Host) where
  pub send-grants : (r : Request) → Preserves grants (send host r)
  send-grants r = record { at = λ w. refl; grows = λ w. omega arith }

  pub now-grants : Preserves grants (now host)
  now-grants = record { at = λ w. refl; grows = λ w. omega arith }

  pub uuid4-grants : Preserves grants (uuid4 host)
  uuid4-grants = record { at = λ w. refl; grows = λ w. omega arith }

  pub seal-grants : (s : String) → Preserves grants (seal host s)
  seal-grants s = record { at = λ w. refl; grows = λ w. omega arith }

  pub opened-grants : (o : Option String) → Preserves grants (opened host o)
  opened-grants none = record { at = λ w. refl; grows = λ w. omega arith }
  opened-grants (some s) = record { at = λ w. refl; grows = λ w. omega arith }

  pub get_me-grants : (t : String) → Preserves grants (get_me host t)
  unfolding get_me
  get_me-grants t = search (preserve_rules, send-grants)

  pub refresh_session-grants : (t : String) → Preserves grants (refresh_session host t)
  unfolding refresh_session
  refresh_session-grants t = search (preserve_rules, send-grants) depth 12

  opened_session-grants : (a : Answer) → Preserves grants (opened_session host a)
  unfolding opened_session
  opened_session-grants a = search (preserve_rules, now-grants, uuid4-grants, seal-grants) depth 24

  pub authenticate-grants : (e p : String) → Preserves grants (authenticate host e p)
  unfolding authenticate
  authenticate-grants e p = search (preserve_rules, send-grants, opened_session-grants) depth 8
