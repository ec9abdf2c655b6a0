-- ===== src/Oauth/RefreshGrant/Invariance.antt =====
-- A property of the rows through the refresh grant.
use okk_analytics_codex_plug.Common.{
  ℕ, String, str_eq, Option, none, some, arith, refl, ◌≡◌, true, false, not, ◌&&◌, subset, split,
  is_some,
}
use okk_analytics_codex_plug.Errors.{Result, ok, raised}
use okk_analytics_codex_plug.Models.{Code, Token, is_refresh}
use okk_analytics_codex_plug.Models.Rows.{Found, find_first-Found, update_where-All}
use okk_analytics_codex_plug.Effect.{Host, now}
use okk_analytics_codex_plug.Effect.Keeps.{Keeps, Keeps-frame, keeps_rules}
use okk_analytics_codex_plug.Platform.Account.Frame.{now-grants, seal-grants}
use okk_analytics_codex_plug.Platform.Context.Frame.{revoke_upstream-grants}
use okk_analytics_codex_plug.Security.Scopes.{validate_scopes}
use okk_analytics_codex_plug.Security.Scopes.Canonical.{validate_scopes-split}
use okk_analytics_codex_plug.Oauth.Types.{Settings, Reply, TokenForm}
use okk_analytics_codex_plug.Oauth.Invariant.{Allowed, Rows, IsClosed}
use okk_analytics_codex_plug.Oauth.Store.Invariance.{revoke_where-Rows, add_token_pair-Rows}
use okk_analytics_codex_plug.Oauth.RefreshGrant.{
  revoke_reused_family, repeated, used_refresh, rotate, link_successor, rotate_unless,
  refresh_with_scope, unused_refresh, presented_refresh, refresh_grant, look_up_refresh,
  refresh_hash,
}
use okk_analytics_codex_plug.Oauth.Store.{find_refresh, add_token_pair}
use okk_analytics_codex_plug.Oauth.RefreshGrant.Frame.{
  retried_rotation-grants, checked_account-grants,
}

abbrev AllowedResult : Result String → Type 0
AllowedResult (ok scope) = Allowed scope
AllowedResult (raised e) = Unit

validate_scopes-Allowed : (s : Option String) → AllowedResult (validate_scopes s)
validate_scopes-Allowed s = go (validate_scopes s) refl
  where
    go : (r : Result String) → validate_scopes s ≡ r → AllowedResult r
    go (ok t) e = (validate_scopes-split s t e).1
    go (raised x) e = tt

-- What was checked of a scope before it is issued for a stored token.
record Grantable (t : Token) (scope : String) : Type 0 where
  live : is_some t.revoked_at ≡ false
  allowed : Allowed scope
  narrower : subset (split scope) (split t.scope) ≡ true

grantable :
    (t : Token) (scope : String)
    → is_some t.revoked_at ≡ false
    → Allowed scope
    → not (subset (split scope) (split t.scope)) ≡ false
    → Grantable t scope
grantable t scope live allowed e = record {
  live = live;
  allowed = allowed;
  narrower = ground arith;
}

module _ (host : Host) (settings : Settings) {d : ℕ} {PC : Code → Type 0} {PT : Token → Type 0}
    (closed : IsClosed host d PC PT) where
  selected_refresh :
      (t : Token) (hash : String)
      → (str_eq t.token_hash hash && is_refresh t.token_type) ≡ true
      → is_refresh t.token_type ≡ true
  selected_refresh t hash e = ground arith

  link_successor-Rows :
      (hash : String) (consumed revoked : ℕ) (next sealed : String)
      → Keeps d (Rows PC PT) (link_successor hash consumed revoked next sealed)
  link_successor-Rows hash consumed revoked next sealed = record {
    at = λ w b h. (
      record {
        codes = h.codes;
        tokens =
            update_where-All PT (λ t. str_eq t.token_hash hash && is_refresh t.token_type) _
              w.tokens
              (λ t e s. closed.linked t consumed revoked next sealed (selected_refresh t hash e) s)
              h.tokens;
      },
      omega arith,
    );
  }

  now-Rows : Keeps d (Rows PC PT) (now host)
  now-Rows = Keeps-frame _ (now-grants host)

  revoke_reused_family-Rows :
      (t : Token) → Keeps d (Rows PC PT) (revoke_reused_family host settings t)
  unfolding revoke_reused_family
  revoke_reused_family-Rows t =
      search (keeps_rules, now-Rows, revoke_where-Rows, Keeps-frame, revoke_upstream-grants) depth 9

  repeated-Rows :
      (t : Token) (o : Option (String × String × String))
      → Keeps d (Rows PC PT) (repeated host settings t o)
  unfolding repeated
  repeated-Rows t none = revoke_reused_family-Rows t
  repeated-Rows t (some (a, r, s)) = search keeps_rules

  used_refresh-Rows : (t : Token) → Keeps d (Rows PC PT) (used_refresh host settings t)
  unfolding used_refresh
  used_refresh-Rows t =
      search (keeps_rules, Keeps-frame, retried_rotation-grants, repeated-Rows) depth 6

  successor_pair-Rows :
      (form : TokenForm) (t : Token) (scope : String)
      → PT t
      → Grantable t scope
      → Keeps d
          (Rows PC PT)
          (add_token_pair host settings form.client_id t.session_id scope t.resource t.family_id)
  successor_pair-Rows form t scope pt g =
      add_token_pair-Rows host settings closed form.client_id t.session_id scope t.resource
        t.family_id
        λ kind m expires bm.
          closed.from_refresh t kind form.client_id scope m expires bm g.live g.allowed g.narrower
            pt

  rotate-Rows :
      (form : TokenForm) (t : Token) (scope : String)
      → PT t
      → Grantable t scope
      → Keeps d (Rows PC PT) (rotate host settings form t scope)
  unfolding rotate
  rotate-Rows form t scope pt g =
      search
        (keeps_rules, now-Rows, successor_pair-Rows, link_successor-Rows, Keeps-frame, seal-grants)
        depth 14

  rotate_unless-Rows :
      (form : TokenForm) (t : Token) (scope : String) (o : Option Reply)
      → PT t
      → Grantable t scope
      → Keeps d (Rows PC PT) (rotate_unless host settings form t scope o)
  unfolding rotate_unless
  rotate_unless-Rows form t scope none pt g = rotate-Rows form t scope pt g
  rotate_unless-Rows form t scope (some r) pt g = search keeps_rules

  refresh_with_scope-Rows :
      (form : TokenForm) (t : Token) (r : Result String)
      → PT t
      → is_some t.revoked_at ≡ false
      → AllowedResult r
      → Keeps d (Rows PC PT) (refresh_with_scope host settings form t r)
  unfolding refresh_with_scope
  refresh_with_scope-Rows form t (raised e) pt live allowed = search keeps_rules
  refresh_with_scope-Rows form t (ok scope) pt live allowed =
      search
        (
          keeps_rules, Keeps-frame, checked_account-grants, rotate_unless-Rows, grantable, live, pt,
          allowed,
        )
        depth 8

  unused_refresh-Rows :
      (form : TokenForm) (t : Token)
      → PT t
      → Keeps d (Rows PC PT) (unused_refresh host settings form t)
  unfolding unused_refresh
  unused_refresh-Rows form t pt =
      search (keeps_rules, refresh_with_scope-Rows, validate_scopes-Allowed) depth 8

  presented_refresh-Rows :
      (form : TokenForm) (o : Option Token)
      → Found PT o
      → Keeps d (Rows PC PT) (presented_refresh host settings form o)
  unfolding presented_refresh
  presented_refresh-Rows form none s = search keeps_rules
  presented_refresh-Rows form (some t) s =
      search (keeps_rules, now-Rows, used_refresh-Rows, unused_refresh-Rows) depth 10

  look_up_refresh-Rows :
      (form : TokenForm) → Keeps d (Rows PC PT) (look_up_refresh host settings form)
  unfolding look_up_refresh
  look_up_refresh-Rows form = record {
    at = λ w b h.
        (presented_refresh-Rows form (find_refresh (refresh_hash host form) w.tokens) (
            find_first-Found PT
              (λ t. str_eq t.token_hash (refresh_hash host form) && is_refresh t.token_type)
              w.tokens h.tokens)).at
          w b h;
  }

  pub refresh_grant-Rows :
      (form : TokenForm) → Keeps d (Rows PC PT) (refresh_grant host settings form)
  unfolding refresh_grant
  refresh_grant-Rows form = search (keeps_rules, look_up_refresh-Rows)
