-- ===== src/Oauth/UserInfo.antt =====
-- `userinfo` and `_bearer_token` of server/okk_mcp/oauth.py.
pub mod Verified
use okk_analytics_codex_plug.Common.{
  ℕ, String, Bool, true, false, not, ◌||◌, Option, none, some, List, [], ◌∷◌, ◌≡◌, refl, sym,
  str_eq, nonempty, strip, subset, inl, inr, Bool-cases, Option-cases, if◌then◌else◌, ap,
}
use okk_analytics_codex_plug.Errors.{Result, ok, raised}
use okk_analytics_codex_plug.Effect.{Host, World, Action, pure, ◌>>=◌}
use okk_analytics_codex_plug.Effect.Outcomes.{bind-ok, ok_injective}
use okk_analytics_codex_plug.Platform.Context.{AccountContext}
use okk_analytics_codex_plug.Oauth.Types.{Settings, Reply, oauth_error}
use okk_analytics_codex_plug.Oauth.Token.{AccessToken, verify_token}
use okk_analytics_codex_plug.Oauth.Token.Accepted.{Accepted, verify_token-Accepted}

pub data UserInfo : Type 0 where
  refused : Reply → UserInfo
  -- `sub` and `email`, with `email_verified` set
  identity : String → String → UserInfo

-- the texts before and behind the first space
unfoldable pub partition_space : String → String × String
partition_space String.[] = ("", "")
partition_space (String.◌∷◌ c s) =
    let (scheme, token) = partition_space s in
    if str_eq (String.◌∷◌ c "") " " then ("", s) else (String.◌∷◌ c scheme, token)

module _ (host : Host) where
  -- `_bearer_token`; a missing header is empty
  unfoldable pub bearer_token : String → Option String
  bearer_token authorization =
      let parts = partition_space authorization in
      if not (str_eq (host.lower parts.0) "bearer") || not (nonempty (strip parts.1))
      then none
      else some (strip parts.1)

  -- `uuid_text` is `str` of a session id
  unfoldable pub account_identity : (ℕ → String) → AccessToken → AccountContext → UserInfo
  account_identity uuid_text verified context =
      let email = host.lower (strip context.email) in
      let subject =
        if nonempty context.user_id then context.user_id else uuid_text verified.subject in
      if not (nonempty email) || not (nonempty subject)
      then refused (oauth_error "invalid_token" "Verified account identity is unavailable" 401)
      else identity subject email

  unfoldable pub scoped_identity : (ℕ → String) → AccessToken → Option AccountContext → UserInfo
  scoped_identity uuid_text verified none =
      refused (oauth_error "temporarily_unavailable" "OKK is temporarily unavailable" 503)
  scoped_identity uuid_text verified (some context) = account_identity uuid_text verified context

  unfoldable pub verified_info : (ℕ → String) → Option AccessToken → UserInfo
  verified_info uuid_text none =
      refused (oauth_error "invalid_token" "Access token is invalid or expired" 401)
  verified_info uuid_text (some verified) =
      if not (subset ("openid" ∷ "email" ∷ []) verified.scopes)
      then refused (oauth_error "insufficient_scope" "openid and email scopes are required" 403)
      else scoped_identity uuid_text verified verified.context

  unfoldable pub info_of : (ℕ → String) → String → Option String → Action UserInfo
  info_of uuid_text resource_url none =
      pure (refused (oauth_error "invalid_token" "Bearer access token is required" 401))
  info_of uuid_text resource_url (some token) = do
    verified ← verify_token host resource_url token
    pure (verified_info uuid_text verified)

  -- `userinfo`
  unfoldable pub userinfo : Settings → (ℕ → String) → String → Action UserInfo
  userinfo settings uuid_text authorization =
      info_of uuid_text settings.resource_url (bearer_token authorization)
