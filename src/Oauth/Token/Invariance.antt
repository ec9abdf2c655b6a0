-- ===== src/Oauth/Token/Invariance.antt =====
-- A property of the rows through the endpoints that change tokens. Checking a token changes none.
use okk_analytics_codex_plug.Common.{ℕ, String, Option, none, some}
use okk_analytics_codex_plug.Errors.{Result, ok, raised, authentication_error, unavailable}
use okk_analytics_codex_plug.Models.{Token, Client, Code}
use okk_analytics_codex_plug.Effect.{Host, grants}
use okk_analytics_codex_plug.Effect.Preserves.{Preserves, Preserves-gets, preserve_rules}
use okk_analytics_codex_plug.Effect.Keeps.{Keeps, Keeps-frame, keeps_rules}
use okk_analytics_codex_plug.Platform.Account.Frame.{now-grants}
use okk_analytics_codex_plug.Platform.Context.{AccountContext}
use okk_analytics_codex_plug.Platform.Context.Frame.{live_context-grants, revoke_upstream-grants}
use okk_analytics_codex_plug.Oauth.Types.{Settings, TokenForm}
use okk_analytics_codex_plug.Oauth.Invariant.{Rows, IsClosed}
use okk_analytics_codex_plug.Oauth.Store.Invariance.{
  in_transaction-Keeps, revoke_where-Rows, revoke_one-Rows,
}
use okk_analytics_codex_plug.Oauth.CodeGrant.Invariance.{code_grant-Rows}
use okk_analytics_codex_plug.Oauth.RefreshGrant.Invariance.{refresh_grant-Rows}
use okk_analytics_codex_plug.Oauth.Token.{
  grant, token_endpoint, revoke_stored, revoke_token, checked_context, verify_stored, verify_token,
}

module _ (host : Host) (settings : Settings) {d : ℕ} {PC : Code → Type 0} {PT : Token → Type 0}
    (closed : IsClosed host d PC PT) where
  grant-Rows :
      (form : TokenForm) (o : Option Client) → Keeps d (Rows PC PT) (grant host settings form o)
  unfolding grant
  grant-Rows form none = search keeps_rules
  grant-Rows form (some c) = search (keeps_rules, code_grant-Rows, refresh_grant-Rows) depth 8

  -- Whatever the form, `token_endpoint` keeps the invariant.
  pub token_endpoint-Rows :
      (form : TokenForm) → Keeps d (Rows PC PT) (token_endpoint host settings form)
  unfolding token_endpoint
  token_endpoint-Rows form =
      in_transaction-Keeps _ (search (keeps_rules, Keeps-frame, Preserves-gets, grant-Rows) depth 6)

  revoke_stored-Rows : (o : Option Token) → Keeps d (Rows PC PT) (revoke_stored host settings o)
  unfolding revoke_stored
  revoke_stored-Rows none = search keeps_rules
  revoke_stored-Rows (some t) =
      search
        (
          keeps_rules,
          Keeps-frame,
          now-grants,
          revoke_upstream-grants,
          revoke_where-Rows host settings closed,
          revoke_one-Rows host settings closed,
        )
        depth 12

  pub revoke_token-Rows :
      (token id : String) → Keeps d (Rows PC PT) (revoke_token host settings token id)
  unfolding revoke_token
  revoke_token-Rows token id =
      in_transaction-Keeps _
        (search (keeps_rules, Keeps-frame, Preserves-gets, revoke_stored-Rows) depth 6)

module _ (host : Host) where
  checked_context-grants :
      (t : Token) (r : Result AccountContext) → Preserves grants (checked_context host t r)
  unfolding checked_context
  checked_context-grants t (ok c) = search preserve_rules
  checked_context-grants t (raised (authentication_error m)) = search preserve_rules
  checked_context-grants t (raised (unavailable m)) = search preserve_rules
  checked_context-grants t (raised _) = search preserve_rules

  verify_stored-grants :
      (url : String) (o : Option Token) → Preserves grants (verify_stored host url o)
  unfolding verify_stored
  verify_stored-grants url none = search preserve_rules
  verify_stored-grants url (some t) =
      search (preserve_rules, now-grants, live_context-grants, checked_context-grants) depth 10

  pub verify_token-grants : (url token : String) → Preserves grants (verify_token host url token)
  unfolding verify_token
  verify_token-grants url token = search (preserve_rules, verify_stored-grants) depth 6
