-- ===== src/Oauth/Invariant.antt =====
-- Invariants of the rows of codes and tokens: what a property of rows must survive to hold of the
-- tables after every request, and the properties that it is used for.
use okk_analytics_codex_plug.Common.{
  ℕ, ◌≤◌, String, ◌≡◌, true, false, some, All, is_some, split, subset,
}
use okk_analytics_codex_plug.Effect.{Host, Grants}
use okk_analytics_codex_plug.Models.{Code, Token, TokenType, is_refresh}
use okk_analytics_codex_plug.Security.Scopes.{allowed_scopes}
use okk_analytics_codex_plug.Oauth.Store.{new_token}

abbrev pub Allowed : String → Type 0
Allowed scope = subset (split scope) allowed_scopes ≡ true

-- Every code and every token of the tables has its property.
pub record Rows (PC : Code → Type 0) (PT : Token → Type 0) (g : Grants) : Type 0 where
  pub codes : All PC g.1
  pub tokens : All PT g.2

-- The changes that the endpoints make to a row, and the rows that they add. Random values are those
-- drawn from the draw `d` on.
pub record IsClosed (host : Host) (d : ℕ) (PC : Code → Type 0) (PT : Token → Type 0) : Type 0 where
  pub consumed : (c : Code) (at : ℕ) → PC c → PC (record c { consumed_at = some at })
  pub revoked : (t : Token) (at : ℕ) → PT t → PT (record t { revoked_at = some at })
  pub linked :
      (t : Token) (consumed revoked : ℕ) (next sealed : String)
      → is_refresh t.token_type ≡ true
      → PT t
      → PT (record t {
        consumed_at = some consumed;
        revoked_at = some revoked;
        replaced_by_hash = some next;
        successor_sealed = some sealed;
      })
  pub from_code :
      (c : Code) (kind : TokenType) (id : String) (m n expires : ℕ)
      → d ≤ m
      → d ≤ n
      → is_some c.consumed_at ≡ false
      → PC c
      → PT (
          new_token
            (host.sha256_hex (host.random m))
            kind
            id
            c.session_id
            c.scope
            c.resource
            (host.uuid n)
            expires)
  pub from_refresh :
      (t : Token) (kind : TokenType) (id scope : String) (m expires : ℕ)
      → d ≤ m
      → is_some t.revoked_at ≡ false
      → Allowed scope
      → subset (split scope) (split t.scope) ≡ true
      → PT t
      → PT (
          new_token
            (host.sha256_hex (host.random m))
            kind
            id
            t.session_id
            scope
            t.resource
            t.family_id
            expires)

-- every code with the hash is used
abbrev pub SpentAt : String → Code → Type 0
SpentAt hash c = c.code_hash ≡ hash → is_some c.consumed_at ≡ true

-- every token of the family is revoked
abbrev pub DeadIn : ℕ → Token → Type 0
DeadIn family t = t.family_id ≡ family → is_some t.revoked_at ≡ true
