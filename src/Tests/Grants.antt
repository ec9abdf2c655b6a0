-- ===== src/Tests/Grants.antt =====
-- The theorems on the grants and the verifier at concrete inputs.
use okk_analytics_codex_plug.Common.{
  suc, ◌≡◌, ◌*◌, ◌∷◌, refl, String, Option, some, [], All, arith, split, contains, sorted_set,
  insert_sorted, join, rstrip_slash, drop_end, strip, drop_front, is_space,
}
use okk_analytics_codex_plug.Errors.{ok}
use okk_analytics_codex_plug.Effect.{World}
use okk_analytics_codex_plug.Platform.Account.{get_me, responded, me_payload, user_fields}
use okk_analytics_codex_plug.Platform.Rotation.{active_session, active}
use okk_analytics_codex_plug.Platform.Context.{live_context, verified_user, record_context}
use okk_analytics_codex_plug.Security.Scopes.{validate_scopes, check_scopes}
use okk_analytics_codex_plug.Oauth.Types.{token_response}
use okk_analytics_codex_plug.Oauth.RefreshGrant.{refresh_grant, checked_account, context_failed}
use okk_analytics_codex_plug.Oauth.RefreshGrant.Rotation.{IsRotation}
use okk_analytics_codex_plug.Oauth.RefreshGrant.Retry.{IsRetry, retry_gets_same_pair}
use okk_analytics_codex_plug.Oauth.Token.{AccessToken, verify_token, verify_stored, checked_context}
use okk_analytics_codex_plug.Oauth.Token.Accepted.{Accepted, verify_token-Accepted}
use okk_analytics_codex_plug.Gateway.{token, verify, serve}
use okk_analytics_codex_plug.Gateway.Family.{BoundIn, family_stays_bound}
use okk_analytics_codex_plug.Tests.Setup.{
  host, settings, code, access_row, refresh_row, refresh_form, world_with,
}

abbrev signed_in : World
signed_in = world_with (code ∷ []) []

abbrev running : World
running = record (world_with [] (access_row ∷ refresh_row ∷ [])) { draws = 1 }

abbrev confirmed : World
confirmed = (checked_account host settings refresh_row (record running { readings = 1 })).1

running-IsRotation :
    IsRotation host settings refresh_form running refresh_row "email openid" confirmed
unfolding checked_account context_failed live_context active_session active get_me responded
    verified_user me_payload user_fields record_context rstrip_slash drop_end validate_scopes
    check_scopes sorted_set insert_sorted split contains strip drop_front is_space join
running-IsRotation = record {
  presented = refl;
  found = refl;
  own = refl;
  live = omega arith;
  unused = refl;
  unrevoked = refl;
  same_resource = refl;
  asked = refl;
  within = refl;
  active = refl;
}

running-IsRetry : IsRetry host settings refresh_row confirmed
unfolding checked_account context_failed live_context active_session active get_me responded
    verified_user me_payload user_fields record_context strip drop_front is_space drop_end split
running-IsRetry = record {
  live = omega arith;
  in_time = omega arith;
  fresh = λ e. cc;
  hash_given = refl;
  sealed_text = "x xx";
  sealed = refl;
  opens = refl;
  reads = refl;
}

retry_gets_same_pair_example :
    refresh_grant host settings refresh_form (refresh_grant host settings refresh_form running).1
    ≡ (
      ok (
          token_response
            (host.random confirmed.draws)
            (host.random (suc confirmed.draws))
            "email openid"
            (15 * 60)),
      record (refresh_grant host settings refresh_form running).1 {
        readings = suc (suc (refresh_grant host settings refresh_form running).1.readings);
      },
    )
retry_gets_same_pair_example =
    retry_gets_same_pair host settings refresh_form running refresh_row "email openid" confirmed
      running-IsRotation running-IsRetry

family_stays_bound_example :
    All
      (BoundIn 50 ("email" ∷ "openid" ∷ []) 7 "https://mcp.example.com/mcp")
      (serve host settings (token refresh_form ∷ verify "a1" ∷ []) running).tokens
unfolding split contains
family_stays_bound_example =
    family_stays_bound host settings (token refresh_form ∷ verify "a1" ∷ []) running 50
      ("email" ∷ "openid" ∷ []) 7 "https://mcp.example.com/mcp" (λ n le e. omega (arith, e))
      (
        λ e. record { scope = refl; session = refl; target = refl },
        (λ e. record { scope = refl; session = refl; target = refl }, tt),
      )

abbrev verified : AccessToken
verified = record {
  client_id = "c1";
  scopes = "email" ∷ "openid" ∷ [];
  expires_at = 1000900;
  resource = "https://mcp.example.com/mcp";
  subject = 7;
  context = some (record {
    session_id = 7;
    user_id = "u1";
    email = "anna@example.com";
    role = "viewer";
    department_ids = "d1" ∷ [];
    access_token = "okk-access-1";
  });
}

accepted : (verify_token host settings.resource_url "a1" running).0 ≡ ok (some verified)
unfolding verify_token verify_stored checked_context live_context active_session active get_me
    responded verified_user me_payload user_fields record_context strip drop_front is_space drop_end
    rstrip_slash split
accepted = refl

verify_token-Accepted_example : Accepted host settings.resource_url "a1" running verified
verify_token-Accepted_example =
    verify_token-Accepted host settings.resource_url "a1" running verified accepted

abbrev asked : Option String
asked = some "openid  email"

canonical : validate_scopes asked ≡ ok "email openid"
unfolding validate_scopes check_scopes sorted_set insert_sorted split contains join is_space
canonical = refl
