-- ===== src/Oauth/UserInfo/Verified.antt =====
-- Whose identity `userinfo` of server/okk_mcp/oauth.py gives out.
use okk_analytics_codex_plug.Common.{
  ℕ, String, true, not, ◌||◌, Option, none, some, [], ◌∷◌, ◌≡◌, ◌≢◌, refl, nonempty, strip, subset,
  inl, inr, Bool-cases, Option-cases, if◌then◌else◌,
}
use okk_analytics_codex_plug.Errors.{ok}
use okk_analytics_codex_plug.Effect.{Host, World}
use okk_analytics_codex_plug.Effect.Outcomes.{bind-ok, ok_injective}
use okk_analytics_codex_plug.Platform.Context.{AccountContext}
use okk_analytics_codex_plug.Oauth.Types.{Settings, Reply}
use okk_analytics_codex_plug.Oauth.Token.{AccessToken, verify_token}
use okk_analytics_codex_plug.Oauth.Token.Accepted.{Accepted, verify_token-Accepted}
use okk_analytics_codex_plug.Oauth.UserInfo.{
  refused, identity, bearer_token, account_identity, scoped_identity, verified_info, info_of,
  userinfo,
}

-- The identity is that of the account behind an accepted token with both identity scopes.
pub record Verified (host : Host) (settings : Settings) (authorization email : String) (w : World)
    : Type 0 where
  pub token : String
  pub presented : bearer_token host authorization ≡ some token
  pub verified : AccessToken
  pub accepted : Accepted host settings.resource_url token w verified
  pub scopes : subset ("openid" ∷ "email" ∷ []) verified.scopes ≡ true
  pub context : AccountContext
  pub confirmed : verified.context ≡ some context
  pub address : email ≡ host.lower (strip context.email)

apart : {r : Reply} {s e : String} → refused r ≢ identity s e
apart h = cc

same_email : {s s' e e' : String} → identity s e ≡ identity s' e' → e' ≡ e
same_email h = cc

module _ (host : Host) (settings : Settings) (uuid_text : ℕ → String) (subject email : String) where
  account_email :
      (verified : AccessToken) (context : AccountContext)
      → account_identity host uuid_text verified context ≡ identity subject email
      → email ≡ host.lower (strip context.email)
  unfolding account_identity
  account_email verified context h =
      elim (Bool-cases (
        not (nonempty (host.lower (strip context.email)))
        || not (
            nonempty (
              if nonempty context.user_id then context.user_id else uuid_text verified.subject)))) [
                | inl e ↦ absurd (apart (rw e at h))
                | inr e ↦ same_email (rw e at h)
              ]

  from_access :
      (authorization token : String) (w : World) (o : Option AccessToken)
      → bearer_token host authorization ≡ some token
      → (verify_token host settings.resource_url token w).0 ≡ ok o
      → verified_info host uuid_text o ≡ identity subject email
      → Verified host settings authorization email w
  unfolding verified_info scoped_identity account_identity
  from_access authorization token w none presented accepted h = absurd (apart h)
  from_access authorization token w (some verified) presented accepted h =
      elim (Bool-cases (subset ("openid" ∷ "email" ∷ []) verified.scopes)) [
        | inr e ↦ absurd (apart (rw e at h))
        | inl e ↦ elim (Option-cases verified.context) [
          | inl k ↦ absurd (apart (rw (e, k) at h))
          | inr (context, k) ↦ record {
            token = token;
            presented = presented;
            verified = verified;
            accepted = verify_token-Accepted host settings.resource_url token w verified accepted;
            scopes = e;
            context = context;
            confirmed = k;
            address = account_email verified context (rw (e, k) at h);
          }
        ]
      ]

  from_token :
      (authorization : String) (w : World) (o : Option String)
      → bearer_token host authorization ≡ o
      → (info_of host uuid_text settings.resource_url o w).0 ≡ ok (identity subject email)
      → Verified host settings authorization email w
  unfolding info_of
  from_token authorization w none e h = absurd (apart (ok_injective h))
  from_token authorization w (some token) e h =
      let (o, accepted, later) =
        bind-ok (verify_token host settings.resource_url token) _ w (identity subject email) h in
      from_access authorization token w o e accepted (ok_injective later)

  -- An email address is given out only for a presented bearer token that the verifier accepts, with
  -- both identity scopes, and it is the address that OKK confirmed for the account just now.
  pub userinfo-Verified :
      (authorization : String) (w : World)
      → (userinfo host settings uuid_text authorization w).0 ≡ ok (identity subject email)
      → Verified host settings authorization email w
  unfolding userinfo
  userinfo-Verified authorization w h =
      from_token authorization w (bearer_token host authorization) refl h
