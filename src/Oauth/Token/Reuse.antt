-- ===== src/Oauth/Token/Reuse.antt =====
-- The reuse of a refresh token at the token endpoint, and what its family is worth afterwards.
use okk_analytics_codex_plug.Common.{
  ℕ, String, ◌≡◌, ◌∙◌, ap, Option, none, some, List, All, find_first, str_eq, not, ◌&&◌,
}
use okk_analytics_codex_plug.Errors.{ok, raised, permission_error}
use okk_analytics_codex_plug.Models.{Token, Client, Session, is_refresh}
use okk_analytics_codex_plug.Models.Rows.{find_first-Found}
use okk_analytics_codex_plug.Effect.{Host, World, grants}
use okk_analytics_codex_plug.Platform.Rotation.{find_session}
use okk_analytics_codex_plug.Platform.Context.Revocation.{Revocable}
use okk_analytics_codex_plug.Oauth.Types.{Settings, TokenForm}
use okk_analytics_codex_plug.Oauth.Invariant.{DeadIn}
use okk_analytics_codex_plug.Oauth.Store.{find_client}
use okk_analytics_codex_plug.Oauth.Store.Transaction.{
  transaction_outcome, transaction_commits, transaction_rolls_back,
}
use okk_analytics_codex_plug.Oauth.RefreshGrant.{refresh_grant}
use okk_analytics_codex_plug.Oauth.RefreshGrant.Reuse.{
  IsReuse, reuse_detected, reuse_ends_family, unreadable_reuse,
}
use okk_analytics_codex_plug.Oauth.Token.{
  grant, granted, token_endpoint, verify_stored, verify_token,
}

module _ (host : Host) (settings : Settings) (form : TokenForm) (w : World) (client : Client)
    (kind : form.grant_type ≡ "refresh_token")
    (known : find_client form.client_id w.clients ≡ some client) where
  -- the endpoint runs the refresh grant of a known client
  pub to_refresh_grant : granted host settings form w ≡ refresh_grant host settings form w
  unfolding grant
  to_refresh_grant = rw (known, kind)

  -- When a refresh token that was used before the retry window is presented again by its client, and
  -- the OKK session is gone, revoked or readable, the endpoint answers that reuse was detected and
  -- leaves every token of the family revoked.
  pub endpoint_ends_family :
      (stored : Token)
      → IsReuse host settings form w stored
      → Revocable host stored.session_id w.sessions
      → ((token_endpoint host settings form w).0 ≡ ok reuse_detected)
        × All (DeadIn stored.family_id) (token_endpoint host settings form w).1.tokens
  unfolding token_endpoint
  endpoint_ends_family stored r h =
      let ended = reuse_ends_family host settings form w stored r h in
      let reply = ap (λ p. p.0) to_refresh_grant ∙ ended.0 in
      (
        transaction_outcome (granted host settings form) w ∙ reply,
        rw (transaction_commits (granted host settings form) w reuse_detected reply)
            (rw to_refresh_grant ended.1),
      )

  -- When the OKK session of a reused refresh token is active but its sealed token cannot be opened,
  -- the endpoint raises an error that is no answer of its own, and the clients, codes and tokens stay
  -- as they were: the family is not revoked.
  pub unreadable_session_keeps_family :
      (stored : Token) (row : Session)
      → IsReuse host settings form w stored
      → find_session stored.session_id w.sessions ≡ some row
      → row.revoked_at ≡ none
      → host.decrypt row.encrypted_refresh_token ≡ none
      → ((token_endpoint host settings form w).0
          ≡ raised (permission_error "Stored OKK session is no longer readable"))
        × (grants (token_endpoint host settings form w).1 ≡ grants w)
  unfolding token_endpoint
  unreadable_session_keeps_family stored row r found active unreadable =
      let outcome =
        ap (λ p. p.0) to_refresh_grant
        ∙ unreadable_reuse host settings form w stored row r found active unreadable in
      (
        transaction_outcome (granted host settings form) w ∙ outcome,
        transaction_rolls_back (granted host settings form) w _ outcome,
      )

-- the row that an access token names
abbrev pub find_access : String → List Token → Option Token
find_access hash = find_first (λ t. str_eq t.token_hash hash && not (is_refresh t.token_type))

-- An access token whose row is in a revoked family is refused, by the verifier of any resource.
pub dead_access_refused :
    (host : Host) (resource_url token : String) (family : ℕ) (w : World) (stored : Token)
    → All (DeadIn family) w.tokens
    → find_access (host.sha256_hex token) w.tokens ≡ some stored
    → stored.family_id ≡ family
    → verify_token host resource_url token w ≡ (ok none, w)
unfolding verify_token verify_stored
dead_access_refused host resource_url token family w stored dead found member =
    let revoked =
      (rw found at (
          find_first-Found (DeadIn family)
            (λ t. str_eq t.token_hash (host.sha256_hex token) && not (is_refresh t.token_type))
            w.tokens dead))
        member in
    rw (found, revoked)
