-- ===== src/Oauth/Token/Once.antt =====
-- At the token endpoint a code buys tokens once.
use okk_analytics_codex_plug.Common.{
  ℕ, String, ◌≡◌, refl, sym, ◌∙◌, Option, none, some, inl, inr, ◌⊎◌, All, eq_iff,
}
use okk_analytics_codex_plug.Errors.{ok}
use okk_analytics_codex_plug.Models.{Client}
use okk_analytics_codex_plug.Effect.{Host, World}
use okk_analytics_codex_plug.Oauth.Types.{
  Settings, TokenForm, token_response, oauth_error, Tokenless,
}
use okk_analytics_codex_plug.Oauth.Invariant.{SpentAt}
use okk_analytics_codex_plug.Oauth.Store.{find_client}
use okk_analytics_codex_plug.Oauth.Store.Transaction.{transaction_outcome, transaction_commits}
use okk_analytics_codex_plug.Oauth.CodeGrant.{code_hash, code_grant}
use okk_analytics_codex_plug.Oauth.CodeGrant.Once.{code_grant-Tokenless, code_grant_spends}
use okk_analytics_codex_plug.Oauth.Token.{grant, granted, token_endpoint}

module _ (host : Host) (settings : Settings) (form : TokenForm) where
  -- the client must be known, and then the code grant decides
  code_branch :
      (o : Option Client) (w : World)
      → form.grant_type ≡ "authorization_code"
      → ((grant host settings form o w).0
          ≡ ok (oauth_error "invalid_client" "Unknown public client" 401))
        ⊎ (grant host settings form o w ≡ code_grant host settings form w)
  unfolding grant
  code_branch none w e = inl refl
  code_branch (some c) w e = inr (rw ((eq_iff form.grant_type "authorization_code").1 e))

  pub endpoint-Tokenless :
      (w : World)
      → form.grant_type ≡ "authorization_code"
      → All (SpentAt (code_hash host form)) w.codes
      → Tokenless (token_endpoint host settings form w).0
  unfolding token_endpoint
  endpoint-Tokenless w e spent a r s n =
      rw (transaction_outcome (granted host settings form) w)
        (elim (code_branch (find_client form.client_id w.clients) w e) [
          | inl unknown ↦ λ h. cc (unknown, h)
          | inr same ↦ rw same (code_grant-Tokenless host settings form w spent a r s n)
        ])

  pub endpoint_spends :
      (w : World) (a r s : String) (n : ℕ)
      → form.grant_type ≡ "authorization_code"
      → (token_endpoint host settings form w).0 ≡ ok (token_response a r s n)
      → All (SpentAt (code_hash host form)) (token_endpoint host settings form w).1.codes
  unfolding token_endpoint
  endpoint_spends w a r s n e bought =
      let bought' = sym (transaction_outcome (granted host settings form) w) ∙ bought in
      rw (transaction_commits (granted host settings form) w (token_response a r s n) bought')
        (elim (code_branch (find_client form.client_id w.clients) w e) [
          | inl unknown ↦ cc (unknown, bought')
          | inr same ↦ rw same (code_grant_spends host settings form w a r s n (rw same at bought'))
        ])
