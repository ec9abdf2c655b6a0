-- ===== src/Oauth/CodeGrant/Exchange.antt =====
-- What the exchange of an authorization code answers and writes, on each branch.
use okk_analytics_codex_plug.Common.{
  ℕ, suc, ◌*◌, ◌+◌, ◌≡◌, true, false, Bool-cases, inl, inr, none, some, ◌∷◌, if◌then◌else◌, str_eq,
}
use okk_analytics_codex_plug.Errors.{ok}
use okk_analytics_codex_plug.Models.{
  Code, Token, TokenType, access, refresh, minutes, days, update_where,
}
use okk_analytics_codex_plug.Effect.{Host, World}
use okk_analytics_codex_plug.Oauth.Types.{Settings, TokenForm, token_response}
use okk_analytics_codex_plug.Oauth.Store.{
  find_code, code_invalid, new_token, add_token_pair, token_pair_response,
}
use okk_analytics_codex_plug.Oauth.CodeGrant.{
  has_code_fields, code_hash, code_refused, issue_family, issue_for_code, fresh_code,
  presented_code, look_up_code, code_grant,
}

module _ (host : Host) (settings : Settings) (form : TokenForm) (w : World) (stored : Code)
    (fields : has_code_fields form ≡ true)
    (found : find_code (code_hash host form) w.codes ≡ some stored)
    (unused : stored.consumed_at ≡ none) where
  to_fresh_code : code_grant host settings form w ≡ fresh_code host settings form stored w
  unfolding code_grant look_up_code presented_code
  to_fresh_code = rw (fields, found, unused)

  -- What the exchange of a stored, unused code answers, where the three fields are given: tokens
  -- with the scope of the code and the configured lifetime if the code passes every check, and one
  -- refusal (`code_invalid`) if it fails any of them.
  pub code_grant_reply :
      (code_grant host settings form w).0
      ≡ ok (
          if code_refused host form stored (host.now w.readings)
          then code_invalid
          else token_response
              (host.random (suc w.draws))
              (host.random (suc (suc w.draws)))
              stored.scope
              (settings.access_token_minutes * 60))
  unfolding fresh_code issue_for_code issue_family add_token_pair token_pair_response
  code_grant_reply =
      rw to_fresh_code (elim (Bool-cases (code_refused host form stored (host.now w.readings))) [
        | inl e ↦ rw e
        | inr e ↦ rw e
      ])

  abbrev fresh_token : TokenType → ℕ → ℕ → Token
  fresh_token kind draw expires_at =
      new_token (host.sha256_hex (host.random draw)) kind form.client_id stored.session_id
        stored.scope stored.resource (host.uuid w.draws) expires_at

  -- What the exchange of a stored, unused code does to the table of tokens, where the three fields
  -- are given: a refused code adds none; an accepted one adds exactly an access and a refresh token
  -- of a new family, with the session, scope and resource of the code, that expire the configured
  -- time after the exchange.
  code_grant_tokens : (code_grant host settings form w).1.tokens ≡ (
      if code_refused host form stored (host.now w.readings)
      then w.tokens
      else fresh_token access
          (suc w.draws)
          (host.now (suc (suc w.readings)) + minutes settings.access_token_minutes)
        ∷ fresh_token refresh
            (suc (suc w.draws))
            (host.now (suc (suc w.readings)) + days settings.refresh_token_days)
        ∷ w.tokens)
  unfolding fresh_code issue_for_code issue_family add_token_pair
  code_grant_tokens =
      rw to_fresh_code (elim (Bool-cases (code_refused host form stored (host.now w.readings))) [
        | inl e ↦ rw e
        | inr e ↦ rw e
      ])

  pub code_grant_codes :
      code_refused host form stored (host.now w.readings) ≡ false
      → (code_grant host settings form w).1.codes
        ≡ update_where
            (λ c. str_eq c.code_hash stored.code_hash)
            (λ c. record c { consumed_at = some (host.now (suc w.readings)) })
            w.codes
  unfolding fresh_code issue_for_code issue_family add_token_pair
  code_grant_codes e = rw to_fresh_code (rw e)
