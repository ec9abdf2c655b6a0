-- ===== src/Maintenance/Orphans.antt =====
-- What the cleanup takes for orphans, and what their logout leaves alone.
use okk_analytics_codex_plug.Common.{
  ℕ, String, ◌+◌, ◌≡◌, refl, Bool, true, false, Bool-cases, inl, inr, ◌⊎◌, Option, none, some, List,
  [], ◌∷◌, All, keep, any, take, map, not, ◌&&◌, ◌||◌, ◌==◌, ltb, is_some, arith,
}
use okk_analytics_codex_plug.Models.{Session, Token, Code, Db}
use okk_analytics_codex_plug.Effect.{Host, World, grants, now, send, Request}
use okk_analytics_codex_plug.Platform.Context.{revoke_row, revoke_upstream}
use okk_analytics_codex_plug.Platform.Context.Frame.{revoke_upstream-grants}
use okk_analytics_codex_plug.Platform.Rotation.{find_session, set_session}
use okk_analytics_codex_plug.Effect.Preserves.{Preserves, Preserves-then, preserve_rules}
use okk_analytics_codex_plug.Crypto.{opened}
use okk_analytics_codex_plug.Oauth.Types.{Settings}
use okk_analytics_codex_plug.Maintenance.{
  older, is_live_token, is_live_code, is_orphan, orphans_at_once, orphan_ids, kept_code, kept_token,
  revoke_orphans,
}
use okk_analytics_codex_plug.Maintenance.Rows.{keep-All, take-All, everything, find_first-elsewhere}

-- a live token or a live code of the session is stored
abbrev pub HasLive : ℕ → ℕ → Db → Type 0
HasLive sid at db =
    (any (λ t. t.session_id == sid && is_live_token at t) db.tokens ≡ true)
    ⊎ (any (λ c. c.session_id == sid && is_live_code at c) db.codes ≡ true)

pub same_number : (a b : ℕ) → a == b ≡ true → a ≡ b
same_number a b h = ground arith

-- no deadline of a row that is live is over
not_old :
    (o : Option ℕ) (expires retention at : ℕ)
    → (ltb at expires && not (is_some o)) ≡ true
    → not (ltb (expires + retention) at || older o retention at) ≡ true
unfolding older
not_old none expires retention at h = ground arith
not_old (some x) expires retention at h = ground arith

pub live_kept_token :
    (retention at : ℕ) (t : Token) → is_live_token at t ≡ true → kept_token retention at t ≡ true
live_kept_token retention at t h = not_old t.revoked_at t.expires_at retention at h

pub live_kept_code :
    (retention at : ℕ) (c : Code) → is_live_code at c ≡ true → kept_code retention at c ≡ true
live_kept_code retention at c h = ground arith

pub both : (a b : Bool) → (a && b) ≡ true → (a ≡ true) × (b ≡ true)
both a b h = (ground arith, ground arith)

neither : (a b c : Bool) → (a && not b && not c) ≡ true → (b ≡ false) × (c ≡ false)
neither a b c h = (ground arith, ground arith)

orphan_elsewhere :
    (sid at : ℕ) (db : Db) (s : Session)
    → HasLive sid at db
    → is_orphan at db.tokens db.codes s ≡ true
    → (s.id == sid) ≡ false
orphan_elsewhere sid at db s live h = elim (Bool-cases (s.id == sid)) [
  | inr e ↦ e
  | inl e ↦
      let same = same_number s.id sid e in
      let (no_token, no_code) =
        neither (not (is_some s.revoked_at))
          (any (λ t. t.session_id == s.id && is_live_token at t) db.tokens)
          (any (λ c. c.session_id == s.id && is_live_code at c) db.codes) h in
      elim live [
        | inl token ↦ cc (token, rw same at no_token)
        | inr code ↦ cc (code, rw same at no_code)
      ]
]

-- none of the ids is the session's
abbrev Elsewhere : ℕ → List ℕ → Type 0
Elsewhere sid = All (λ id. (id == sid) ≡ false)

ids_of :
    (sid : ℕ) (rows : List Session)
    → All (λ s. (s.id == sid) ≡ false) rows
    → Elsewhere sid (map (λ s. s.id) rows)
ids_of sid [] h = tt
ids_of sid (s ∷ rest) h = (h.0, ids_of sid rest h.1)

pub orphans-Elsewhere :
    (sid at : ℕ) (db : Db) → HasLive sid at db → Elsewhere sid (orphan_ids at db)
unfolding orphan_ids
orphans-Elsewhere sid at db live =
    let orphans = keep (is_orphan at db.tokens db.codes) db.sessions in
    ids_of sid (take orphans_at_once orphans) (
      take-All (λ s. (s.id == sid) ≡ false) orphans_at_once orphans
        (keep-All (λ s. Unit) (λ s. (s.id == sid) ≡ false) (is_orphan at db.tokens db.codes)
          db.sessions (λ s e _. orphan_elsewhere sid at db s live e) (everything db.sessions)))

abbrev pub view : ℕ → World → Option Session
view sid w = find_session sid w.sessions

different : (id sid n : ℕ) → (id == sid) ≡ false → (n == id) ≡ true → (n == sid) ≡ false
different id sid n h e = ground arith

opened-view : (sid : ℕ) (o : Option String) (host : Host) → Preserves (view sid) (opened host o)
opened-view sid none host = search preserve_rules
opened-view sid (some t) host = search preserve_rules

module _ (host : Host) (sid : ℕ) where
  now-view : Preserves (view sid) (now host)
  now-view = record { at = λ w. refl; grows = λ w. omega arith }

  send-view : (r : Request) → Preserves (view sid) (send host r)
  send-view r = record { at = λ w. refl; grows = λ w. omega arith }

  revoked-view :
      (id at : ℕ)
      → (id == sid) ≡ false
      → Preserves (view sid) (set_session id (λ s. record s { revoked_at = some at }))
  revoked-view id at h = record {
    at = λ w.
        find_first-elsewhere (λ s. s.id == sid) (λ s. s.id == id)
          (λ s. record s { revoked_at = some at }) w.sessions (λ s e. different id sid s.id h e)
          (λ s. refl);
    grows = λ w. omega arith;
  }

  -- the logout of another session leaves the session alone
  revoke_row-view :
      (o : Option Session) (id : ℕ)
      → (id == sid) ≡ false
      → Preserves (view sid) (revoke_row host o id)
  unfolding revoke_row
  revoke_row-view none id h = search preserve_rules
  revoke_row-view (some row) id h =
      search (preserve_rules, now-view, send-view, opened-view, revoked-view, h) depth 14

  revoke_upstream-view :
      (id : ℕ) → (id == sid) ≡ false → Preserves (view sid) (revoke_upstream host id)
  unfolding revoke_upstream
  revoke_upstream-view id h = search (preserve_rules, revoke_row-view, h) depth 8

module _ (host : Host) (settings : Settings) (sid : ℕ) where
  pub revoke_orphans-view :
      (ids : List ℕ) → Elsewhere sid ids → Preserves (view sid) (revoke_orphans host settings ids)
  unfolding revoke_orphans
  revoke_orphans-view [] h = search preserve_rules
  revoke_orphans-view (id ∷ rest) h =
      Preserves-then _ _ (revoke_upstream-view host sid id h.0) (revoke_orphans-view rest h.1)

module _ (host : Host) (settings : Settings) where
  pub revoke_orphans-grants : (ids : List ℕ) → Preserves grants (revoke_orphans host settings ids)
  unfolding revoke_orphans
  revoke_orphans-grants [] = search preserve_rules
  revoke_orphans-grants (id ∷ rest) =
      Preserves-then _ _ (revoke_upstream-grants host id) (revoke_orphans-grants rest)
