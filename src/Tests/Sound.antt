-- ===== src/Tests/Sound.antt =====
-- The invariants of the tables at concrete inputs.
use okk_analytics_codex_plug.Common.{refl, List, [], ◌∷◌, All, split, contains, arith}
use okk_analytics_codex_plug.Effect.{World}
use okk_analytics_codex_plug.Oauth.Invariant.{DeadIn}
use okk_analytics_codex_plug.Gateway.{Call, token, revoke, verify, serve}
use okk_analytics_codex_plug.Gateway.Visits.{Visit, client, sign_in, attend}
use okk_analytics_codex_plug.Gateway.Visits.Sound.{IsSound, attend-IsSound}
use okk_analytics_codex_plug.Gateway.Revoked.{revoked_family_stays}
use okk_analytics_codex_plug.Tests.Authorize.{form, service, signs_allowed}
use okk_analytics_codex_plug.Tests.ClientMetadata.{web}
use okk_analytics_codex_plug.Tests.Redirects.{net}
use okk_analytics_codex_plug.Tests.Setup.{
  host, settings, code, access_row, refresh_row, used_row, code_form, refresh_form, world_with,
}

abbrev requests : List Call
requests = token code_form ∷ token refresh_form ∷ revoke "r1" "c1" ∷ verify "a1" ∷ []

abbrev sound_world : World
sound_world = world_with (code ∷ []) (access_row ∷ refresh_row ∷ [])

sound_world-IsSound : IsSound sound_world
unfolding split contains
sound_world-IsSound = record {
  codes = (record { scope_allowed = refl }, tt);
  tokens = (
    record {
      scope_allowed = refl;
      used_is_revoked = λ h. cc;
      used_is_replaced = refl;
      access_unused = λ h. refl;
    },
    (
      record {
        scope_allowed = refl;
        used_is_revoked = λ h. cc;
        used_is_replaced = refl;
        access_unused = λ h. refl;
      },
      tt,
    ),
  );
}

abbrev visits : List Visit
visits = client (token code_form) ∷ sign_in form ∷ client (token refresh_form) ∷ []

attend-IsSound_example : IsSound (attend host settings net web service visits sound_world)
attend-IsSound_example =
    attend-IsSound host settings net web service visits sound_world signs_allowed
      sound_world-IsSound

abbrev dead_world : World
dead_world = world_with (code ∷ []) (used_row ∷ [])

revoked_family_stays_example : All (DeadIn 50) (serve host settings requests dead_world).tokens
revoked_family_stays_example =
    revoked_family_stays host settings requests dead_world 50 (λ n le e. omega (arith, e))
      (λ e. refl, tt)
