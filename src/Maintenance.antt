-- ===== src/Maintenance.antt =====
-- server/okk_mcp/maintenance.py: the cleanup of expired grants and orphaned OKK sessions. A deadline
-- `x < now - d` is written `x + d < now`, as instants do not go below zero here.
pub mod Rows
pub mod Orphans
pub mod Blocked
pub mod Live
use okk_analytics_codex_plug.Common.{
  ℕ, ◌+◌, ◌-◌, Bool, false, true, not, ◌&&◌, ◌||◌, Option, none, some, List, [], ◌∷◌, ◌==◌, ltb,
  is_some, any, keep, length, map, take, str_eq,
}
use okk_analytics_codex_plug.Models.{Client, Session, Code, Token, Db, update_where, seconds, days}
use okk_analytics_codex_plug.Effect.{Host, World, Action, pure, gets, modify, ◌>>=◌, ◌>>◌, now}
use okk_analytics_codex_plug.Platform.Context.{revoke_upstream}
use okk_analytics_codex_plug.Oauth.Types.{Settings}

-- a column that is set and lies more than the age back; `NULL` compares as false
unfoldable pub older : Option ℕ → ℕ → ℕ → Bool
older none age at = false
older (some x) age at = ltb (x + age) at

-- `live_token` and `live_code`, for a row
abbrev pub is_live_token : ℕ → Token → Bool
is_live_token at t = ltb at t.expires_at && not (is_some t.revoked_at)

abbrev pub is_live_code : ℕ → Code → Bool
is_live_code at c = ltb at c.expires_at && not (is_some c.consumed_at)

-- an active session with neither a live token nor a live code
abbrev pub is_orphan : ℕ → List Token → List Code → Session → Bool
is_orphan at tokens codes s =
    not (is_some s.revoked_at)
    && not (any (λ t. t.session_id == s.id && is_live_token at t) tokens)
    && not (any (λ c. c.session_id == s.id && is_live_code at c) codes)

abbrev pub orphans_at_once : ℕ
orphans_at_once = 500

unfoldable pub orphan_ids : ℕ → Db → List ℕ
orphan_ids at db =
    map (λ s. s.id) (take orphans_at_once (keep (is_orphan at db.tokens db.codes) db.sessions))

-- the DELETE statements, by the rows that they keep
abbrev pub kept_code : ℕ → ℕ → Code → Bool
kept_code retention at c = not (ltb (c.expires_at + retention) at)

abbrev pub kept_token : ℕ → ℕ → Token → Bool
kept_token retention at t =
    not (ltb (t.expires_at + retention) at || older t.revoked_at retention at)

abbrev pub kept_session : ℕ → ℕ → List Token → List Code → Session → Bool
kept_session retention at tokens codes s = not (
    older s.revoked_at retention at
    && not (any (λ t. t.session_id == s.id) tokens)
    && not (any (λ c. c.session_id == s.id) codes))

abbrev pub abandoned_client_age : ℕ
abandoned_client_age = days 1

abbrev pub kept_client : ℕ → List Token → List Code → Client → Bool
kept_client at tokens codes c = not (
    not (is_some c.first_authorized_at)
    && ltb (c.created_at + abandoned_client_age) at
    && not (any (λ k. str_eq k.client_id c.client_id) codes)
    && not (any (λ t. str_eq t.client_id c.client_id) tokens))

-- the retry pairs whose window is over
abbrev pub retry_over : ℕ → ℕ → Token → Bool
retry_over window at t = is_some t.successor_sealed && older t.consumed_at window at

abbrev pub clear_retry : Token → Token
clear_retry t = record t { successor_sealed = none }

pub record Report : Type 0 where
  pub orphan_sessions_revoked : ℕ
  pub codes_deleted : ℕ
  pub tokens_deleted : ℕ
  pub sessions_deleted : ℕ
  pub retry_pairs_cleared : ℕ
  pub abandoned_clients_deleted : ℕ

-- The second transaction: each statement meets the tables as the ones before left them.
unfoldable pub swept_tokens : Settings → ℕ → Db → List Token
swept_tokens settings at db = keep (kept_token (days settings.audit_retention_days) at) db.tokens

unfoldable pub swept_codes : Settings → ℕ → Db → List Code
swept_codes settings at db = keep (kept_code (days settings.audit_retention_days) at) db.codes

unfoldable pub swept : Settings → ℕ → Db → Db
unfolding swept_tokens swept_codes
swept settings at db =
    let retention = days settings.audit_retention_days in
    let codes = swept_codes settings at db in
    let tokens = swept_tokens settings at db in
    let cleared =
      update_where (retry_over (seconds settings.refresh_retry_seconds) at) clear_retry tokens in
    record {
      clients = keep (kept_client at cleared codes) db.clients;
      sessions = keep (kept_session retention at tokens codes) db.sessions;
      codes = codes;
      tokens = cleared;
    }

abbrev pub report : Settings → ℕ → ℕ → Db → Report
report settings at orphans db =
    let after = swept settings at db in
    record {
      orphan_sessions_revoked = orphans;
      codes_deleted = length db.codes - length after.codes;
      tokens_deleted = length db.tokens - length after.tokens;
      sessions_deleted = length db.sessions - length after.sessions;
      retry_pairs_cleared = length (
          keep (retry_over (seconds settings.refresh_retry_seconds) at)
            (swept_tokens settings at db));
      abandoned_clients_deleted = length db.clients - length after.clients;
    }

module _ (host : Host) (settings : Settings) where
  unfoldable pub revoke_orphans : List ℕ → Action (Unit {0})
  revoke_orphans [] = pure tt
  revoke_orphans (sid ∷ rest) = revoke_upstream host sid >> revoke_orphans rest

  abbrev pub sweep : ℕ → ℕ → Action Report
  sweep at orphans = do
    found ← gets (λ w. report settings at orphans w.db)
    modify (λ w. record w { db = swept settings at w.db })
    pure found

  -- `cleanup_once`
  unfoldable pub cleanup_once : Action Report
  cleanup_once = do
    at ← now host
    orphans ← gets (λ w. orphan_ids at w.db)
    revoke_orphans orphans
    sweep at (length orphans)
