-- ===== src/Oauth/RefreshGrant/Retry.antt =====
-- A client that lost the answer to its refresh gets the same pair again.
use okk_analytics_codex_plug.Common.{
  suc, ◌+◌, ◌*◌, ◌<◌, ◌≤◌, String, ◌≡◌, ◌≢◌, refl, sym, ◌∙◌, ap, Bool, true, false, some, str_eq,
  eq_iff, eq_refl, ◌&&◌, nonempty, Bool-cases, inl, inr, lt→leb, le→ltb, subst,
}
use okk_analytics_codex_plug.Errors.{ok}
use okk_analytics_codex_plug.Models.{Token, refresh, is_refresh, days, seconds}
use okk_analytics_codex_plug.Models.Rows.{find_first-selected, find_first-update_where}
use okk_analytics_codex_plug.Effect.{Host, World}
use okk_analytics_codex_plug.Oauth.Types.{Settings, TokenForm, token_response, given, value}
use okk_analytics_codex_plug.Oauth.Store.{find_refresh, token_pair_response}
use okk_analytics_codex_plug.Oauth.RefreshGrant.{
  refresh_hash, retry_pair, retried_rotation, repeated, used_refresh, presented_refresh,
  look_up_refresh, refresh_grant,
}
use okk_analytics_codex_plug.Oauth.RefreshGrant.Frame.{checked_account-grants}
use okk_analytics_codex_plug.Oauth.RefreshGrant.Rotation.{
  IsRotation, linked, successor, rotated_tokens, rotate_lem, to_rotate,
}

and_false : (b : Bool) → b && false ≡ false
and_false true = refl
and_false false = refl

and_left : (a b : Bool) → (a && b) ≡ true → a ≡ true
and_left true b h = refl
and_left false b h = cc

-- What the retry needs of the clock, the random source and the sealing, where `c` is the world in
-- which the rotation issued its tokens.
pub record IsRetry (host : Host) (settings : Settings) (stored : Token) (c : World) : Type 0 where
  pub live : host.now (suc (suc (suc c.readings))) < stored.expires_at
  pub in_time :
      host.now (suc (suc (suc (suc c.readings))))
      ≤ host.now c.readings + seconds settings.refresh_retry_seconds
  pub fresh : host.sha256_hex (host.random (suc c.draws)) ≢ stored.token_hash
  pub hash_given : nonempty (host.sha256_hex (host.random (suc c.draws))) ≡ true
  pub sealed_text : String
  pub sealed : given (linked host c stored).successor_sealed ≡ true
  pub opens : host.decrypt (value (linked host c stored).successor_sealed) ≡ some sealed_text
  pub reads : host.loads_pair sealed_text ≡ (host.random c.draws, host.random (suc c.draws))

module _ (host : Host) (settings : Settings) (form : TokenForm) (stored : Token) (scope : String)
    (c : World) (r : IsRetry host settings stored c) where
  abbrev next_hash : String
  next_hash = host.sha256_hex (host.random (suc c.draws))

  missed : str_eq next_hash stored.token_hash ≡ false
  missed = elim (Bool-cases (str_eq next_hash stored.token_hash)) [
    | inl e ↦ absurd (r.fresh ((eq_iff next_hash stored.token_hash).0 e))
    | inr e ↦ e
  ]

  -- the used token is found with the link to its successor
  used_found :
      find_refresh stored.token_hash c.tokens ≡ some stored
      → find_refresh stored.token_hash (rotated_tokens host settings form stored scope c)
        ≡ some (linked host c stored)
  used_found h =
      rw (and_false (str_eq (host.sha256_hex (host.random c.draws)) stored.token_hash), missed)
        (rw (and_false (str_eq (host.sha256_hex (host.random c.draws)) stored.token_hash), missed)
          (find_first-update_where
            (λ t. str_eq t.token_hash stored.token_hash && is_refresh t.token_type) (linked host c)
            c.tokens stored (λ t e. e) h))

  abbrev next_row : Token
  next_row =
      successor host settings form stored scope c refresh (suc c.draws)
        (host.now (suc (suc c.readings)) + days settings.refresh_token_days)

  -- its successor is there, neither used nor revoked
  successor_found :
      find_refresh next_hash (rotated_tokens host settings form stored scope c) ≡ some next_row
  successor_found =
      rw (and_false (str_eq (host.sha256_hex (host.random c.draws)) stored.token_hash), missed)
        (rw
          (and_false (str_eq (host.sha256_hex (host.random c.draws)) next_hash), eq_refl next_hash)
          refl)

  -- the world in which the retry is noticed
  abbrev noticed : World
  noticed = record c {
    readings = suc (suc (suc (suc c.readings)));
    draws = suc (suc (suc c.draws));
    db = record c.db { tokens = rotated_tokens host settings form stored scope c };
  }

  retried_lem : retried_rotation host settings (linked host c stored) noticed ≡ (
    ok (some (host.random c.draws, host.random (suc c.draws), scope)),
    record noticed { readings = suc (suc (suc (suc (suc c.readings)))) },
  )
  unfolding retried_rotation retry_pair
  retried_lem =
      rw (r.sealed, r.hash_given, le→ltb _ _ r.in_time, successor_found, r.opens, r.reads) refl

  used_lem : used_refresh host settings (linked host c stored) noticed ≡ (
    ok (
        token_response
          (host.random c.draws)
          (host.random (suc c.draws))
          scope
          (settings.access_token_minutes * 60)),
    record noticed { readings = suc (suc (suc (suc (suc c.readings)))) },
  )
  unfolding used_refresh repeated token_pair_response
  used_lem = rw retried_lem

  abbrev rotated : World
  rotated = record noticed { readings = suc (suc (suc c.readings)) }

  presented_lem :
      stored.client_id ≡ form.client_id
      → presented_refresh host settings form (some (linked host c stored)) rotated
        ≡ used_refresh host settings (linked host c stored) noticed
  unfolding presented_refresh
  presented_lem own =
      rw ((eq_iff stored.client_id form.client_id).1 own, lt→leb _ stored.expires_at r.live) refl

  again :
      given form.refresh_token ≡ true
      → stored.token_hash ≡ refresh_hash host form
      → stored.client_id ≡ form.client_id
      → find_refresh (refresh_hash host form) c.tokens ≡ some stored
      → refresh_grant host settings form rotated
        ≡ used_refresh host settings (linked host c stored) noticed
  unfolding refresh_grant look_up_refresh
  again presented same own found = rw presented (
      ap (λ o. presented_refresh host settings form o rotated)
        (subst (λ h. find_refresh h rotated.tokens ≡ some (linked host c stored)) same
          (used_found (subst (λ h. find_refresh h c.tokens ≡ some stored) (sym same) found)))
      ∙ presented_lem own)

selected :
    (host : Host) (form : TokenForm) (w : World) (stored : Token)
    → find_refresh (refresh_hash host form) w.tokens ≡ some stored
    → stored.token_hash ≡ refresh_hash host form
selected host form w stored h = (eq_iff stored.token_hash (refresh_hash host form)).0 (
    and_left _ _ (
      find_first-selected
        (λ t. str_eq t.token_hash (refresh_hash host form) && is_refresh t.token_type) w.tokens
        stored h))

-- the account check leaves the tokens alone
checked_tokens :
    (host : Host) (settings : Settings) (form : TokenForm) (w : World) (stored : Token)
    (scope : String) (checked : World)
    → IsRotation host settings form w stored scope checked
    → checked.tokens ≡ w.tokens
checked_tokens host settings form w stored scope c t =
    ap (λ p. p.1.tokens) (sym t.active)
    ∙ ap (λ g. g.2)
        ((checked_account-grants host settings stored).at (record w { readings = suc w.readings }))

-- A refresh with an unused token that passes every check, sent again within the retry window and
-- before the token expires, is answered with the same pair of tokens and the same scope, and changes
-- nothing but the number of clock readings. It needs a new refresh token with another hash, and a
-- sealed pair that opens and reads back.
pub retry_gets_same_pair :
    (host : Host) (settings : Settings) (form : TokenForm) (w : World) (stored : Token)
    (scope : String) (checked : World)
    → IsRotation host settings form w stored scope checked
    → IsRetry host settings stored checked
    → refresh_grant host settings form (refresh_grant host settings form w).1 ≡ (
      ok (
          token_response
            (host.random checked.draws)
            (host.random (suc checked.draws))
            scope
            (settings.access_token_minutes * 60)),
      record (refresh_grant host settings form w).1 {
        readings = suc (suc (refresh_grant host settings form w).1.readings);
      },
    )
retry_gets_same_pair host settings form w stored scope c t r =
    let same = selected host form w stored t.found in
    rw
      (
        to_rotate host settings form stored scope w c t,
        rotate_lem host settings form stored scope c,
      )
      (again host settings form stored scope c r t.presented same t.own (
          subst (λ rows. find_refresh (refresh_hash host form) rows ≡ some stored)
            (sym (checked_tokens host settings form w stored scope c t)) t.found)
        ∙ used_lem host settings form stored scope c r)
