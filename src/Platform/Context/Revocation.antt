-- ===== src/Platform/Context/Revocation.antt =====
-- When `revoke_upstream` of server/okk_mcp/platform_client.py returns.
use okk_analytics_codex_plug.Common.{
  ℕ, ◌≡◌, refl, true, false, Bool-cases, inl, inr, Option, none, some, Option-cases, is_some, List,
}
use okk_analytics_codex_plug.Errors.{ok, raised, permission_error}
use okk_analytics_codex_plug.Models.{Session}
use okk_analytics_codex_plug.Effect.{Host, World}
use okk_analytics_codex_plug.Platform.Rotation.{find_session}
use okk_analytics_codex_plug.Platform.Context.{revoke_row, revoke_upstream}

-- an active session's sealed refresh token can be opened
abbrev pub ReadableRow : Host → Option Session → Type 0
ReadableRow host none = Unit
ReadableRow host (some row) =
    is_some row.revoked_at ≡ false → is_some (host.decrypt row.encrypted_refresh_token) ≡ true

-- the OKK session, if it is there and active, can be logged out
abbrev pub Revocable : Host → ℕ → List Session → Type 0
Revocable host sid rows = ReadableRow host (find_session sid rows)

module _ (host : Host) where
  revoke_row_returns :
      (o : Option Session) (sid : ℕ) (w : World)
      → ReadableRow host o
      → (revoke_row host o sid w).0 ≡ ok tt
  unfolding revoke_row
  revoke_row_returns none sid w h = refl
  revoke_row_returns (some row) sid w h = elim (Bool-cases (is_some row.revoked_at)) [
    | inl e ↦ rw e
    | inr e ↦ elim (Option-cases (host.decrypt row.encrypted_refresh_token)) [
      | inl unreadable ↦ cc (h e, unreadable)
      | inr (text, readable) ↦ rw (e, readable)
    ]
  ]

  pub revoke_upstream_returns :
      (sid : ℕ) (w : World) → Revocable host sid w.sessions → (revoke_upstream host sid w).0 ≡ ok tt
  unfolding revoke_upstream
  revoke_upstream_returns sid w h = revoke_row_returns (find_session sid w.sessions) sid w h

  -- a sealed refresh token that cannot be opened
  pub revoke_upstream_raises :
      (sid : ℕ) (w : World) (row : Session)
      → find_session sid w.sessions ≡ some row
      → row.revoked_at ≡ none
      → host.decrypt row.encrypted_refresh_token ≡ none
      → revoke_upstream host sid w
        ≡ (raised (permission_error "Stored OKK session is no longer readable"), w)
  unfolding revoke_upstream revoke_row
  revoke_upstream_raises sid w row found active unreadable = rw (found, active, unreadable)
