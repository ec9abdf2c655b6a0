-- ===== src/Oauth/RefreshGrant/Reuse.antt =====
-- What a refresh with a token that was used already does, outside a retry.
use okk_analytics_codex_plug.Common.{
  ℕ, suc, ◌+◌, ◌<◌, ◌≡◌, refl, sym, ap, true, Bool-cases, inl, inr, none, some, List, All, is_some,
  ◌==◌, subst, ◌⊎◌, ◌||◌, eq_iff, arith, lt→ltb, not, ◌&&◌,
}
use okk_analytics_codex_plug.Errors.{Result, ok, raised, permission_error}
use okk_analytics_codex_plug.Models.{Token, Session, seconds}
use okk_analytics_codex_plug.Models.Rows.{update_where-makes}
use okk_analytics_codex_plug.Effect.{Host, World}
use okk_analytics_codex_plug.Platform.Rotation.{find_session}
use okk_analytics_codex_plug.Platform.Context.Frame.{revoke_upstream-grants}
use okk_analytics_codex_plug.Platform.Context.Revocation.{
  Revocable, revoke_upstream_returns, revoke_upstream_raises,
}
use okk_analytics_codex_plug.Oauth.Types.{Settings, TokenForm, Reply, given}
use okk_analytics_codex_plug.Oauth.Invariant.{DeadIn}
use okk_analytics_codex_plug.Oauth.Store.{find_refresh, invalid_grant, revoke_where}
use okk_analytics_codex_plug.Oauth.RefreshGrant.{
  refresh_hash, retried_rotation, revoke_reused_family, repeated, used_refresh, presented_refresh,
  look_up_refresh, refresh_grant,
}

abbrev pub reuse_detected : Reply
unfolding invalid_grant
reuse_detected = invalid_grant "Refresh token reuse detected; session revoked"

-- The request presents a stored refresh token of its own client, not expired and used long ago.
pub record IsReuse (host : Host) (settings : Settings) (form : TokenForm) (w : World)
    (stored : Token) : Type 0 where
  pub presented : given form.refresh_token ≡ true
  pub found : find_refresh (refresh_hash host form) w.tokens ≡ some stored
  pub own : stored.client_id ≡ form.client_id
  pub live : host.now w.readings < stored.expires_at
  pub used_at : ℕ
  pub used : stored.consumed_at ≡ some used_at
  pub late : used_at + seconds settings.refresh_retry_seconds < host.now (suc w.readings)

-- the revocation of a family, whatever the table
revoke_where-dead :
    (family at : ℕ) (rows : List Token)
    → All (DeadIn family) (revoke_where (λ t. t.family_id == family) at rows)
revoke_where-dead family at rows =
    update_where-makes (DeadIn family) (λ t. t.family_id == family && not (is_some t.revoked_at))
      (λ t. record t { revoked_at = some at }) rows (λ t e. refl)
      (λ t miss e. ground (arith, miss, e))

-- The family is revoked and the reply says so.
record Ended (family : ℕ) (out : Result Reply × World) : Type 0 where
  pub reply : out.0 ≡ ok reuse_detected
  pub dead : All (DeadIn family) out.1.tokens

module _ (host : Host) (settings : Settings) (stored : Token) where
  revoke_reused_family-Ended :
      (w : World)
      → Revocable host stored.session_id w.sessions
      → Ended stored.family_id (revoke_reused_family host settings stored w)
  unfolding revoke_reused_family reuse_detected
  revoke_reused_family-Ended w h =
      let at = host.now w.readings in
      let w' = record w {
        readings = suc w.readings;
        db = record w.db {
          tokens = revoke_where (λ t. t.family_id == stored.family_id) at w.tokens;
        };
      } in
      let kept = (revoke_upstream-grants host stored.session_id).at w' in
      record {
        reply = rw (revoke_upstream_returns host stored.session_id w' h);
        dead = rw (revoke_upstream_returns host stored.session_id w' h) (
            subst (All (DeadIn stored.family_id)) (sym (ap (λ g. g.2) kept))
              (revoke_where-dead stored.family_id at w.tokens));
      }

  revoke_reused_family-raises :
      (w : World) (row : Session)
      → find_session stored.session_id w.sessions ≡ some row
      → row.revoked_at ≡ none
      → host.decrypt row.encrypted_refresh_token ≡ none
      → (revoke_reused_family host settings stored w).0
        ≡ raised (permission_error "Stored OKK session is no longer readable")
  unfolding revoke_reused_family
  revoke_reused_family-raises w row found active unreadable =
      let w' = record w {
        readings = suc w.readings;
        db = record w.db {
          tokens =
              revoke_where (λ t. t.family_id == stored.family_id) (host.now w.readings) w.tokens;
        };
      } in
      rw (revoke_upstream_raises host stored.session_id w' row found active unreadable)

  -- A retry that comes too late, or that has no successor to hand out.
  late_retry :
      (used_at : ℕ) (w : World)
      → stored.consumed_at ≡ some used_at
      → used_at + seconds settings.refresh_retry_seconds < host.now w.readings
      → (retried_rotation host settings stored w ≡ (ok none, w))
        ⊎ (retried_rotation host settings stored w
            ≡ (ok none, record w { readings = suc w.readings }))
  unfolding retried_rotation
  late_retry used_at w used late =
      elim (Bool-cases (
        not (given stored.successor_sealed)
        || not (given stored.replaced_by_hash)
        || not (is_some stored.consumed_at))) [
          | inl e ↦ inl (rw e)
          | inr e ↦ inr (rw (e, used, lt→ltb _ _ late))
        ]

  used_refresh-Ended :
      (used_at : ℕ) (w : World)
      → stored.consumed_at ≡ some used_at
      → used_at + seconds settings.refresh_retry_seconds < host.now w.readings
      → Revocable host stored.session_id w.sessions
      → Ended stored.family_id (used_refresh host settings stored w)
  unfolding used_refresh repeated
  used_refresh-Ended used_at w used late h = elim (late_retry used_at w used late) [
    | inl e ↦ rw e (revoke_reused_family-Ended w h)
    | inr e ↦ rw e (revoke_reused_family-Ended (record w { readings = suc w.readings }) h)
  ]

module _ (host : Host) (settings : Settings) (form : TokenForm) (w : World) (stored : Token) where
  to_used_refresh :
      IsReuse host settings form w stored
      → refresh_grant host settings form w
        ≡ used_refresh host settings stored (record w { readings = suc w.readings })
  unfolding refresh_grant look_up_refresh presented_refresh
  to_used_refresh r =
      rw (r.presented, r.found, (eq_iff stored.client_id form.client_id).1 r.own, r.used)
        (ground (arith, r.live))

  -- The grant answers a reuse with one refusal, and every token of the family is revoked.
  pub reuse_ends_family :
      IsReuse host settings form w stored
      → Revocable host stored.session_id w.sessions
      → ((refresh_grant host settings form w).0 ≡ ok reuse_detected)
        × All (DeadIn stored.family_id) (refresh_grant host settings form w).1.tokens
  reuse_ends_family r h =
      let ended =
        used_refresh-Ended host settings stored r.used_at (record w { readings = suc w.readings })
          r.used r.late h in
      rw (to_used_refresh r) (ended.reply, ended.dead)

  -- The grant raises where the session's sealed token cannot be opened.
  pub unreadable_reuse :
      (row : Session)
      → IsReuse host settings form w stored
      → find_session stored.session_id w.sessions ≡ some row
      → row.revoked_at ≡ none
      → host.decrypt row.encrypted_refresh_token ≡ none
      → (refresh_grant host settings form w).0
        ≡ raised (permission_error "Stored OKK session is no longer readable")
  unfolding used_refresh repeated
  unreadable_reuse row r found active unreadable =
      let w' = record w { readings = suc w.readings } in
      rw (to_used_refresh r) (elim (late_retry host settings stored r.used_at w' r.used r.late) [
        | inl e ↦
            rw e (revoke_reused_family-raises host settings stored w' row found active unreadable)
        | inr e ↦ rw e (
            revoke_reused_family-raises host settings stored
              (record w { readings = suc (suc w.readings) }) row found active unreadable)
      ])
