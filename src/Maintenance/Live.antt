-- ===== src/Maintenance/Live.antt =====
-- The cleanup ends no live sign-in.
use okk_analytics_codex_plug.Common.{
  ℕ, suc, ◌≡◌, refl, sym, ◌∙◌, ap, subst, Bool, true, false, inl, inr, Option, none, some, All,
  keep, not, ◌&&◌, ◌==◌, is_some, arith, length,
}
use okk_analytics_codex_plug.Errors.{Result, ok, raised}
use okk_analytics_codex_plug.Models.{Session, Token, Db, seconds, days}
use okk_analytics_codex_plug.Effect.{Host, World, continue}
use okk_analytics_codex_plug.Platform.Rotation.{find_session}
use okk_analytics_codex_plug.Oauth.Types.{Settings}
use okk_analytics_codex_plug.Maintenance.{
  older, is_live_token, is_live_code, orphan_ids, kept_code, kept_token, kept_session, retry_over,
  clear_retry, swept_tokens, swept_codes, swept, revoke_orphans, sweep, cleanup_once,
}
use okk_analytics_codex_plug.Maintenance.Rows.{
  keep-keep, keep-update_where, keep-All, any-keep, find_first-keep,
}
use okk_analytics_codex_plug.Maintenance.Orphans.{
  HasLive, both, same_number, live_kept_token, live_kept_code, orphans-Elsewhere,
  revoke_orphans-view, revoke_orphans-grants,
}

-- a used token is revoked, which `attend-IsSound` says of every stored token
abbrev pub UsedIsRevoked : Token → Type 0
UsedIsRevoked t = is_some t.consumed_at ≡ true → is_some t.revoked_at ≡ true

not_live :
    (p q : Bool) (consumed revoked : Option ℕ) (age at : ℕ)
    → (is_some consumed ≡ true → is_some revoked ≡ true)
    → (p && older consumed age at) ≡ true
    → (q && not (is_some revoked)) ≡ false
unfolding older
not_live p q none revoked age at h e = ground arith
not_live p q (some x) revoked age at h e = ground (arith, h refl)

module _ (settings : Settings) (at : ℕ) (db : Db) where
  referenced : (a b c : Bool) → b ≡ true → not (a && not b && not c) ≡ true
  referenced a b c h = ground arith

  referenced' : (a b c : Bool) → c ≡ true → not (a && not b && not c) ≡ true
  referenced' a b c h = ground arith

  live_session_kept :
      (sid : ℕ) (s : Session)
      → HasLive sid at db
      → s.id ≡ sid
      → kept_session
          (days settings.audit_retention_days)
          at
          (swept_tokens settings at db)
          (swept_codes settings at db)
          s
        ≡ true
  unfolding swept_tokens swept_codes
  live_session_kept sid s (inl token) same = referenced _ _ _ (
      rw same (
        any-keep (λ t. t.session_id == sid && is_live_token at t) (λ t. t.session_id == sid)
          (kept_token (days settings.audit_retention_days) at) db.tokens
          (λ t e.
            let (own, live) = both (t.session_id == sid) (is_live_token at t) e in
            (own, live_kept_token (days settings.audit_retention_days) at t live))
          token))
  live_session_kept sid s (inr code) same = referenced' _ _ _ (
      rw same (
        any-keep (λ c. c.session_id == sid && is_live_code at c) (λ c. c.session_id == sid)
          (kept_code (days settings.audit_retention_days) at) db.codes
          (λ c e.
            let (own, live) = both (c.session_id == sid) (is_live_code at c) e in
            (own, live_kept_code (days settings.audit_retention_days) at c live))
          code))

  swept_session :
      (sid : ℕ)
      → HasLive sid at db
      → find_session sid (swept settings at db).sessions ≡ find_session sid db.sessions
  unfolding swept
  swept_session sid live =
      find_first-keep (λ s. s.id == sid)
        (kept_session (days settings.audit_retention_days) at (swept_tokens settings at db)
          (swept_codes settings at db))
        db.sessions (λ s e. live_session_kept sid s live (same_number s.id sid e))

  used_not_live :
      (t : Token)
      → UsedIsRevoked t
      → retry_over (seconds settings.refresh_retry_seconds) at t ≡ true
      → is_live_token at t ≡ false
  unfolding older
  used_not_live t h e = not_live _ _ t.consumed_at t.revoked_at _ at h e

  swept_live_tokens :
      All UsedIsRevoked db.tokens
      → keep (is_live_token at) (swept settings at db).tokens ≡ keep (is_live_token at) db.tokens
  unfolding swept swept_tokens
  swept_live_tokens sound =
      keep-update_where UsedIsRevoked (is_live_token at)
        (retry_over (seconds settings.refresh_retry_seconds) at) clear_retry
        (keep (kept_token (days settings.audit_retention_days) at) db.tokens)
        (keep-All UsedIsRevoked UsedIsRevoked (kept_token (days settings.audit_retention_days) at)
          db.tokens (λ t e h. h) sound)
        (λ t h e. used_not_live t h e) (λ t. refl)
      ∙ keep-keep (is_live_token at) (kept_token (days settings.audit_retention_days) at) db.tokens
          (live_kept_token (days settings.audit_retention_days) at)

  swept_live_codes :
      keep (is_live_code at) (swept settings at db).codes ≡ keep (is_live_code at) db.codes
  unfolding swept swept_codes
  swept_live_codes =
      keep-keep (is_live_code at) (kept_code (days settings.audit_retention_days) at) db.codes
        (live_kept_code (days settings.audit_retention_days) at)

-- What a cleanup from the tables `before` to `after` leaves of the live grants at an instant.
pub record LiveKept (at : ℕ) (before after : Db) : Type 0 where
  pub tokens : keep (is_live_token at) after.tokens ≡ keep (is_live_token at) before.tokens
  pub codes : keep (is_live_code at) after.codes ≡ keep (is_live_code at) before.codes
  pub sessions :
      (sid : ℕ)
      → HasLive sid at before
      → find_session sid after.sessions ≡ find_session sid before.sessions

module _ (host : Host) (settings : Settings) where
  swept-LiveKept :
      (at : ℕ) (db : Db) → All UsedIsRevoked db.tokens → LiveKept at db (swept settings at db)
  swept-LiveKept at db sound = record {
    tokens = swept_live_tokens settings at db sound;
    codes = swept_live_codes settings at db;
    sessions = swept_session settings at db;
  }

  still_live :
      (sid at : ℕ) (before after : Db)
      → after.tokens ≡ before.tokens
      → after.codes ≡ before.codes
      → HasLive sid at before
      → HasLive sid at after
  still_live sid at before after tokens codes (inl t) = inl (rw tokens t)
  still_live sid at before after tokens codes (inr c) = inr (rw codes c)

  -- after the logouts, whether they all returned or one raised
  after_logouts :
      (r : Result (Unit {0})) (at orphans : ℕ) (w : World)
      → All UsedIsRevoked w.tokens
      → LiveKept at w.db (continue r (λ _. sweep host settings at orphans) w).1.db
  after_logouts (ok u) at orphans w sound = swept-LiveKept at w.db sound
  after_logouts (raised e) at orphans w sound = record {
    tokens = refl;
    codes = refl;
    sessions = λ sid h. refl;
  }

  -- Whether the cleanup returns or raises, every token and code that is live at its first reading of
  -- the clock is still stored as it was, with no other live one beside them, and every OKK session
  -- with a live token or code is stored unchanged: neither deleted nor revoked. It needs every used
  -- token to be revoked, as the endpoints keep it.
  pub cleanup_once-LiveKept :
      (w : World)
      → All UsedIsRevoked w.tokens
      → LiveKept (host.now w.readings) w.db (cleanup_once host settings w).1.db
  unfolding cleanup_once
  cleanup_once-LiveKept w sound =
      let at = host.now w.readings in
      let start = record w { readings = suc w.readings } in
      let ids = orphan_ids at w.db in
      let logouts = revoke_orphans host settings ids start in
      let kept = (revoke_orphans-grants host settings ids).at start in
      let tokens = ap (λ g. g.2) kept in
      let codes = ap (λ g. g.1) kept in
      let later =
        after_logouts logouts.0 at (length ids) logouts.1
          (subst (All UsedIsRevoked) (sym tokens) sound) in
      record {
        tokens = later.tokens ∙ ap (keep (is_live_token at)) tokens;
        codes = later.codes ∙ ap (keep (is_live_code at)) codes;
        sessions = λ sid live.
            later.sessions sid (still_live sid at w.db logouts.1.db tokens codes live)
            ∙ (revoke_orphans-view host settings sid ids (orphans-Elsewhere sid at w.db live)).at
                start;
      }
