-- ===== src/Tests/Stolen.antt =====
-- A stolen refresh token at a concrete input.
use okk_analytics_codex_plug.Common.{◌≡◌, refl, none, some, List, [], ◌∷◌, arith, ◌+◌}
use okk_analytics_codex_plug.Errors.{ok}
use okk_analytics_codex_plug.Models.{Token}
use okk_analytics_codex_plug.Platform.Context.{revoke_upstream, revoke_row}
use okk_analytics_codex_plug.Oauth.Store.{in_transaction, rolled_back}
use okk_analytics_codex_plug.Oauth.RefreshGrant.{
  refresh_grant, look_up_refresh, presented_refresh, used_refresh, retried_rotation, repeated,
  revoke_reused_family,
}
use okk_analytics_codex_plug.Oauth.Token.{
  token_endpoint, verify_token, revoke_token, revoke_stored, grant,
}
use okk_analytics_codex_plug.Oauth.Token.Reuse.{find_access}
use okk_analytics_codex_plug.Gateway.{Call, revoke, serve, handle}
use okk_analytics_codex_plug.Gateway.Stolen.{stolen_family_is_refused}
use okk_analytics_codex_plug.Tests.Reuse.{moved_on, moved_on-IsReuse}
use okk_analytics_codex_plug.Tests.Setup.{
  host, settings, client, access_row, used_row, refresh_form, start,
}

-- after the reuse, the client revokes its access token as well
abbrev later : List Call
later = revoke "a1" "c1" ∷ []

abbrev dead_row : Token
dead_row = record access_row { revoked_at = some (start + 3000000) }

dead_row_found :
    find_access
      (host.sha256_hex "a1")
      (serve host settings later (token_endpoint host settings refresh_form moved_on).1).tokens
    ≡ some dead_row
unfolding serve handle revoke_token revoke_stored token_endpoint grant in_transaction rolled_back
    refresh_grant look_up_refresh presented_refresh used_refresh retried_rotation repeated
    revoke_reused_family revoke_upstream revoke_row
dead_row_found = refl

stolen_family_is_refused_example :
    (verify_token host settings.resource_url "a1"
      (serve host settings later (token_endpoint host settings refresh_form moved_on).1)).0
    ≡ ok none
stolen_family_is_refused_example =
    stolen_family_is_refused host settings refresh_form moved_on client used_row dead_row later
      settings.resource_url "a1" refl refl moved_on-IsReuse (λ e. refl) (λ n le e. omega (arith, e))
      dead_row_found refl
