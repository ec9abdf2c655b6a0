-- ===== src/Oauth/RefreshGrant/Rotation.antt =====
-- What a refresh with an unused token does: it rotates the token.
use okk_analytics_codex_plug.Common.{
  ℕ, suc, ◌+◌, ◌*◌, ◌<◌, String, ◌≡◌, refl, true, false, none, some, List, ◌∷◌, is_some, str_eq,
  eq_iff, lt→leb, ◌&&◌, split, subset, rstrip_slash, text_or,
}
use okk_analytics_codex_plug.Errors.{ok}
use okk_analytics_codex_plug.Models.{
  Token, TokenType, access, refresh, is_refresh, update_where, minutes, days,
}
use okk_analytics_codex_plug.Effect.{Host, World}
use okk_analytics_codex_plug.Security.Scopes.{validate_scopes}
use okk_analytics_codex_plug.Oauth.Types.{Settings, TokenForm, token_response, given, value}
use okk_analytics_codex_plug.Oauth.Store.{
  find_refresh, new_token, add_token_pair, token_pair_response,
}
use okk_analytics_codex_plug.Oauth.RefreshGrant.{
  refresh_hash, checked_account, rotate_unless, rotate, refresh_with_scope, unused_refresh,
  presented_refresh, look_up_refresh, refresh_grant,
}

-- The request passes every check on the stored token, and the account is live at OKK: `checked` is
-- the world after that check.
pub record IsRotation (host : Host) (settings : Settings) (form : TokenForm) (w : World)
    (stored : Token) (scope : String) (checked : World) : Type 0 where
  pub presented : given form.refresh_token ≡ true
  pub found : find_refresh (refresh_hash host form) w.tokens ≡ some stored
  pub own : stored.client_id ≡ form.client_id
  pub live : host.now w.readings < stored.expires_at
  pub unused : is_some stored.consumed_at ≡ false
  pub unrevoked : is_some stored.revoked_at ≡ false
  pub same_resource : rstrip_slash (text_or (value form.resource) stored.resource) ≡ stored.resource
  pub asked : validate_scopes (some (text_or (value form.scope) stored.scope)) ≡ ok scope
  pub within : subset (split scope) (split stored.scope) ≡ true
  pub active :
      checked_account host settings stored (record w { readings = suc w.readings })
      ≡ (ok none, checked)

-- the stored row of the used token after its rotation
abbrev pub linked : Host → World → Token → Token
linked host w t = record t {
  consumed_at = some (host.now w.readings);
  revoked_at = some (host.now (suc w.readings));
  replaced_by_hash = some (host.sha256_hex (host.random (suc w.draws)));
  successor_sealed = some (
      host.encrypt (suc (suc w.draws))
        (host.dumps_pair (host.random w.draws) (host.random (suc w.draws))));
}

-- the tokens that a rotation adds
abbrev pub successor :
    Host → Settings → TokenForm → Token → String → World → TokenType → ℕ → ℕ → Token
successor host settings form stored scope w kind draw expires_at =
    new_token (host.sha256_hex (host.random draw)) kind form.client_id stored.session_id scope
      stored.resource stored.family_id expires_at

-- the tables after a rotation
abbrev pub rotated_tokens : Host → Settings → TokenForm → Token → String → World → List Token
rotated_tokens host settings form stored scope w =
    let at = host.now (suc (suc w.readings)) in
    update_where (λ t. str_eq t.token_hash stored.token_hash && is_refresh t.token_type)
      (linked host w)
      (successor host settings form stored scope w access w.draws
          (at + minutes settings.access_token_minutes)
        ∷ successor host settings form stored scope w refresh (suc w.draws)
            (at + days settings.refresh_token_days)
        ∷ w.tokens)

module _ (host : Host) (settings : Settings) (form : TokenForm) (stored : Token)
    (scope : String) where
  -- the whole effect of `rotate`
  pub rotate_lem :
      (w : World)
      → rotate host settings form stored scope w ≡ (
        ok (
            token_response
              (host.random w.draws)
              (host.random (suc w.draws))
              scope
              (settings.access_token_minutes * 60)),
        record w {
          readings = suc (suc (suc w.readings));
          draws = suc (suc (suc w.draws));
          db = record w.db { tokens = rotated_tokens host settings form stored scope w };
        },
      )
  unfolding rotate add_token_pair token_pair_response
  rotate_lem w = refl

  -- A request with an unused refresh token that passes every check is a rotation.
  pub to_rotate :
      (w checked : World)
      → IsRotation host settings form w stored scope checked
      → refresh_grant host settings form w ≡ rotate host settings form stored scope checked
  unfolding refresh_grant look_up_refresh presented_refresh unused_refresh refresh_with_scope
      rotate_unless
  to_rotate w checked r = rw (
    r.presented,
    r.found,
    (eq_iff stored.client_id form.client_id).1 r.own,
    r.unused,
    r.unrevoked,
    (eq_iff _ stored.resource).1 r.same_resource,
    r.asked,
    r.within,
    lt→leb (host.now w.readings) stored.expires_at r.live,
    r.active,
  )
