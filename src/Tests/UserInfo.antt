-- ===== src/Tests/UserInfo.antt =====
-- User info at a concrete input.
use okk_analytics_codex_plug.Common.{
  ℕ, ◌≡◌, refl, String, [], ◌∷◌, split, contains, is_space, strip, drop_front, drop_end,
  rstrip_slash,
}
use okk_analytics_codex_plug.Errors.{ok}
use okk_analytics_codex_plug.Effect.{World}
use okk_analytics_codex_plug.Platform.Account.{get_me, responded, me_payload, user_fields}
use okk_analytics_codex_plug.Platform.Rotation.{active_session, active}
use okk_analytics_codex_plug.Platform.Context.{live_context, verified_user, record_context}
use okk_analytics_codex_plug.Oauth.Token.{verify_token, verify_stored, checked_context}
use okk_analytics_codex_plug.Oauth.UserInfo.{
  identity, partition_space, bearer_token, account_identity, scoped_identity, verified_info,
  info_of, userinfo,
}
use okk_analytics_codex_plug.Oauth.UserInfo.Verified.{Verified, userinfo-Verified}
use okk_analytics_codex_plug.Tests.Setup.{host, settings, access_row, world_with}

abbrev online : World
online = world_with [] (access_row ∷ [])

abbrev uuid_text : ℕ → String
uuid_text n = "session"

identified :
    (userinfo host settings uuid_text "bearer a1" online).0 ≡ ok (identity "u1" "anna@example.com")
unfolding userinfo info_of bearer_token partition_space verified_info scoped_identity
    account_identity verify_token verify_stored checked_context live_context active_session active
    get_me responded verified_user me_payload user_fields record_context strip drop_front drop_end
    is_space rstrip_slash split contains
identified = refl

userinfo-Verified_example : Verified host settings "bearer a1" "anna@example.com" online
userinfo-Verified_example =
    userinfo-Verified host settings uuid_text "u1" "anna@example.com" "bearer a1" online identified
