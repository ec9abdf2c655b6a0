-- ===== src/Maintenance/Blocked.antt =====
-- A session whose sealed token cannot be opened stops the cleanup.
use okk_analytics_codex_plug.Common.{ℕ, suc, ◌≡◌, refl, none, some, List, ◌∷◌}
use okk_analytics_codex_plug.Errors.{raised, permission_error}
use okk_analytics_codex_plug.Models.{Session}
use okk_analytics_codex_plug.Effect.{Host, World}
use okk_analytics_codex_plug.Platform.Rotation.{find_session}
use okk_analytics_codex_plug.Platform.Context.Revocation.{revoke_upstream_raises}
use okk_analytics_codex_plug.Oauth.Types.{Settings}
use okk_analytics_codex_plug.Maintenance.{orphan_ids, revoke_orphans, cleanup_once}

-- When the sealed refresh token of the first orphaned session cannot be opened, the cleanup raises and
-- changes nothing but the number of clock readings: no expired code, token, session, retry pair or
-- abandoned client is removed.
pub unreadable_orphan_stops_cleanup :
    (host : Host) (settings : Settings) (w : World) (sid : ℕ) (rest : List ℕ) (row : Session)
    → orphan_ids (host.now w.readings) w.db ≡ sid ∷ rest
    → find_session sid w.sessions ≡ some row
    → row.revoked_at ≡ none
    → host.decrypt row.encrypted_refresh_token ≡ none
    → cleanup_once host settings w ≡ (
      raised (permission_error "Stored OKK session is no longer readable"),
      record w { readings = suc w.readings },
    )
unfolding cleanup_once revoke_orphans
unreadable_orphan_stops_cleanup host settings w sid rest row first found active unreadable =
    rw
      (
        first,
        revoke_upstream_raises host sid (record w { readings = suc w.readings }) row found active
            unreadable,
      )
      refl
