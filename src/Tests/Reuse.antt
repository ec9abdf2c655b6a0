-- ===== src/Tests/Reuse.antt =====
-- The theorems on reused tokens and codes at concrete inputs.
use okk_analytics_codex_plug.Common.{List, ◌≡◌, refl, some, [], ◌∷◌, All, arith}
use okk_analytics_codex_plug.Errors.{ok, raised, permission_error}
use okk_analytics_codex_plug.Models.{Session, Code}
use okk_analytics_codex_plug.Effect.{World, grants}
use okk_analytics_codex_plug.Oauth.Invariant.{Rows, DeadIn}
use okk_analytics_codex_plug.Oauth.CodeGrant.{code_grant}
use okk_analytics_codex_plug.Oauth.CodeGrant.Replay.{EndedIn, Replayed, code_replay_ends_session}
use okk_analytics_codex_plug.Oauth.RefreshGrant.Reuse.{IsReuse, reuse_detected}
use okk_analytics_codex_plug.Oauth.Token.{token_endpoint}
use okk_analytics_codex_plug.Oauth.Token.Reuse.{
  endpoint_ends_family, unreadable_session_keeps_family,
}
use okk_analytics_codex_plug.Gateway.{token}
use okk_analytics_codex_plug.Gateway.Visits.{Visit, client as request, sign_in, attend}
use okk_analytics_codex_plug.Gateway.Visits.Ended.{UsedIn, ended_session_stays}
use okk_analytics_codex_plug.Tests.Authorize.{form, service, signs_allowed}
use okk_analytics_codex_plug.Tests.ClientMetadata.{web}
use okk_analytics_codex_plug.Tests.Redirects.{net}
use okk_analytics_codex_plug.Tests.Setup.{
  host, settings, client, session, code, access_row, refresh_row, used_row, code_form, refresh_form,
  world_with,
}

-- the refresh token was used, its successors are live
abbrev pub moved_on : World
moved_on = world_with (code ∷ []) (used_row ∷ access_row ∷ [])

pub moved_on-IsReuse : IsReuse host settings refresh_form moved_on used_row
moved_on-IsReuse = record {
  presented = refl;
  found = refl;
  own = refl;
  live = omega arith;
  used_at = 1;
  used = refl;
  late = omega arith;
}

endpoint_ends_family_example :
    ((token_endpoint host settings refresh_form moved_on).0 ≡ ok reuse_detected)
    × All (DeadIn 50) (token_endpoint host settings refresh_form moved_on).1.tokens
endpoint_ends_family_example =
    endpoint_ends_family host settings refresh_form moved_on client refl refl used_row
      moved_on-IsReuse (λ e. refl)

-- the sealed refresh token of the session cannot be opened
abbrev unreadable : Session
unreadable = record session { encrypted_refresh_token = "" }

abbrev unreadable_world : World
unreadable_world = record moved_on { db = record moved_on.db { sessions = unreadable ∷ [] } }

unreadable_world-IsReuse : IsReuse host settings refresh_form unreadable_world used_row
unreadable_world-IsReuse = record {
  presented = refl;
  found = refl;
  own = refl;
  live = omega arith;
  used_at = 1;
  used = refl;
  late = omega arith;
}

unreadable_session_keeps_family_example :
    ((token_endpoint host settings refresh_form unreadable_world).0
      ≡ raised (permission_error "Stored OKK session is no longer readable"))
    × (grants (token_endpoint host settings refresh_form unreadable_world).1
        ≡ grants unreadable_world)
unreadable_session_keeps_family_example =
    unreadable_session_keeps_family host settings refresh_form unreadable_world client refl refl
      used_row unreadable unreadable_world-IsReuse refl refl refl

abbrev used_code : Code
used_code = record code { consumed_at = some 1 }

abbrev bought : World
bought = world_with (used_code ∷ []) (access_row ∷ refresh_row ∷ [])

code_replay_ends_session_example :
    Replayed 7 (used_code ∷ []) (code_grant host settings code_form bought)
code_replay_ends_session_example =
    code_replay_ends_session host settings code_form bought used_code refl refl refl (λ e. refl)

abbrev ended : World
ended = world_with (used_code ∷ []) (used_row ∷ [])

abbrev visits : List Visit
visits = sign_in form ∷ request (token code_form) ∷ request (token refresh_form) ∷ []

ended_session_stays_example :
    Rows (UsedIn 7) (EndedIn 7) (grants (attend host settings net web service visits ended))
ended_session_stays_example =
    ended_session_stays host settings net web service visits ended 7 signs_allowed
      (λ n le e. omega (arith, e)) (λ e. refl, tt) (λ e. refl, tt)
