-- ===== src/Tests/Maintenance.antt =====
-- The cleanup at a concrete input.
use okk_analytics_codex_plug.Common.{◌≡◌, refl, [], ◌∷◌}
use okk_analytics_codex_plug.Models.{Session}
use okk_analytics_codex_plug.Effect.{World}
use okk_analytics_codex_plug.Maintenance.{orphan_ids, cleanup_once}
use okk_analytics_codex_plug.Maintenance.Blocked.{unreadable_orphan_stops_cleanup}
use okk_analytics_codex_plug.Errors.{raised, permission_error}
use okk_analytics_codex_plug.Maintenance.Live.{LiveKept, cleanup_once-LiveKept}
use okk_analytics_codex_plug.Tests.Setup.{
  host, settings, code, access_row, used_row, session, world_with,
}

-- a second session has no token and no code
abbrev orphaned : World
orphaned =
    let w = world_with (code ∷ []) (access_row ∷ used_row ∷ []) in
    record w { db = record w.db { sessions = session ∷ record session { id = 8 } ∷ [] } }

cleanup_once-LiveKept_example :
    LiveKept (host.now 0) orphaned.db (cleanup_once host settings orphaned).1.db
cleanup_once-LiveKept_example =
    cleanup_once-LiveKept host settings orphaned (λ e. cc, (λ e. refl, tt))

abbrev unreadable : Session
unreadable = record session { encrypted_refresh_token = "" }

abbrev stuck : World
stuck =
    let w = world_with [] (used_row ∷ []) in
    record w { db = record w.db { sessions = unreadable ∷ [] } }

first_orphan : orphan_ids (host.now 0) stuck.db ≡ 7 ∷ []
unfolding orphan_ids
first_orphan = refl

unreadable_orphan_stops_cleanup_example : cleanup_once host settings stuck ≡ (
  raised (permission_error "Stored OKK session is no longer readable"),
  record stuck { readings = 1 },
)
unreadable_orphan_stops_cleanup_example =
    unreadable_orphan_stops_cleanup host settings stuck 7 [] unreadable first_orphan refl refl refl
