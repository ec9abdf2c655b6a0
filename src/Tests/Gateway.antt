-- ===== src/Tests/Gateway.antt =====
-- The theorems on histories of requests at concrete inputs.
use okk_analytics_codex_plug.Common.{◌≡◌, refl, [], ◌∷◌}
use okk_analytics_codex_plug.Errors.{ok}
use okk_analytics_codex_plug.Effect.{World}
use okk_analytics_codex_plug.Oauth.Types.{token_response, Tokenless}
use okk_analytics_codex_plug.Oauth.Store.{
  in_transaction, rolled_back, add_token_pair, token_pair_response,
}
use okk_analytics_codex_plug.Oauth.CodeGrant.{
  code_grant, look_up_code, presented_code, fresh_code, code_refused, issue_for_code, issue_family,
}
use okk_analytics_codex_plug.Security.Pkce.{verify_pkce, valid_pkce_string, is_pkce_char}
use okk_analytics_codex_plug.Oauth.Token.{token_endpoint, grant}
use okk_analytics_codex_plug.Gateway.{revoke, verify, serve}
use okk_analytics_codex_plug.Gateway.Spent.{code_buys_once}
use okk_analytics_codex_plug.Tests.Setup.{host, settings, code, code_form, world_with}

abbrev signed_in : World
signed_in = world_with (code ∷ []) []

exchanged :
    (token_endpoint host settings code_form signed_in).0
    ≡ ok (token_response "x" "xx" "email openid" 900)
unfolding token_endpoint grant in_transaction rolled_back code_grant look_up_code presented_code
    fresh_code code_refused verify_pkce valid_pkce_string is_pkce_char issue_for_code issue_family
    add_token_pair token_pair_response
exchanged = refl

code_buys_once_example :
    Tokenless
      (token_endpoint host settings code_form (
        serve host settings
          (revoke "x" "c1" ∷ verify "x" ∷ [])
          (token_endpoint host settings code_form signed_in).1)).0
code_buys_once_example =
    code_buys_once host settings code_form code_form (revoke "x" "c1" ∷ verify "x" ∷ []) signed_in
      "x" "xx" "email openid" 900 refl refl refl exchanged
