-- ===== src/Tests/Platform.antt =====
-- The theorems on the platform client at concrete inputs.
use okk_analytics_codex_plug.Common.{
  ℕ, zero, suc, ◌≡◌, ◌⊎◌, refl, [], ◌∷◌, eq_iff, strip, drop_front, drop_end, is_space,
}
use okk_analytics_codex_plug.Errors.{ok}
use okk_analytics_codex_plug.Effect.{Host, World, Answer, dropped, response, me, query, read}
use okk_analytics_codex_plug.Platform.Account.{
  get_me, responded, me_payload, user_fields, refresh_session, checked, issued, refresh_cookie,
}
use okk_analytics_codex_plug.Platform.Rotation.{
  active_session, active, rotate_session, renew_session,
}
use okk_analytics_codex_plug.Platform.Rotation.Shared.{rotation_is_shared}
use okk_analytics_codex_plug.Platform.Context.{
  AccountContext, live_context, verified_user, record_context,
}
use okk_analytics_codex_plug.Platform.Context.Live.{IsLive, live_context-IsLive}
use okk_analytics_codex_plug.Platform.Reads.{send_read, get, get_with_context}
use okk_analytics_codex_plug.Platform.Reads.Attempts.{Attempts, send_read-Attempts}
use okk_analytics_codex_plug.Platform.Reads.Paths.{IsReadPath, refusal, reads_only_allowed}
use okk_analytics_codex_plug.Tests.Setup.{host, accepted, world_with}

abbrev resting : World
resting = world_with [] []

-- the connection drops once
abbrev flaky : Host
flaky = record host { answer = answers }
  where
    answers : ℕ → Answer
    answers zero = dropped
    answers (suc n) = response accepted

send_read-Attempts_example :
    Attempts flaky 2
      (read "GET" "/calls" (query []) "t")
      resting
      (send_read flaky "GET" "/calls" (query []) "t" resting)
send_read-Attempts_example = send_read-Attempts flaky "GET" "/calls" "t" (query []) resting

abbrev context : AccountContext
context = record {
  session_id = 7;
  user_id = "u1";
  email = "anna@example.com";
  role = "viewer";
  department_ids = "d1" ∷ [];
  access_token = "okk-access-1";
}

returned : (live_context host 7 resting).0 ≡ ok context
unfolding live_context active_session active get_me responded verified_user me_payload user_fields
    record_context strip drop_front is_space drop_end
returned = refl

live_context-IsLive_example : IsLive 7 resting context
live_context-IsLive_example = live_context-IsLive host 7 resting context returned

rotated : (rotate_session host 7 "okk-access-1" resting).0 ≡ ok ("okk-access-2", accepted.user)
unfolding rotate_session active_session active renew_session refresh_session responded checked
    issued refresh_cookie
rotated = refl

rotation_is_shared_example :
    (rotate_session host 7 "okk-access-1" (rotate_session host 7 "okk-access-1" resting).1).1.sent
    ≡ me "okk-access-2" ∷ (rotate_session host 7 "okk-access-1" resting).1.sent
rotation_is_shared_example =
    rotation_is_shared host 7 "okk-access-1" resting
      (rotate_session host 7 "okk-access-1" resting).1 ("okk-access-2", accepted.user) (λ n s. refl)
      rotated (λ e. cc ((eq_iff "okk-access-2" "okk-access-1").1 e)) refl

reads_only_allowed_example :
    ((get host 7 "/auth/me" (query []) resting ≡ (refusal, resting))
      × (get_with_context host context "/auth/me" (query []) resting ≡ (refusal, resting)))
    ⊎ IsReadPath "/auth/me"
reads_only_allowed_example = reads_only_allowed host "/auth/me" (query []) 7 context resting
