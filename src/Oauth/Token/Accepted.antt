-- ===== src/Oauth/Token/Accepted.antt =====
-- What an accepted access token says of the tables and of the account at OKK.
use okk_analytics_codex_plug.Common.{
  ℕ, suc, ◌<◌, String, ◌≡◌, ◌≢◌, refl, ap, false, Bool-cases, inl, inr, Option, none, some,
  Option-cases, is_some, leb, ◌||◌, not, str_eq, eq_iff, rstrip_slash, split, arith, subst,
}
use okk_analytics_codex_plug.Errors.{Result, ok, raised, authentication_error, unavailable}
use okk_analytics_codex_plug.Models.{Token}
use okk_analytics_codex_plug.Effect.{Host, World}
use okk_analytics_codex_plug.Platform.Context.{AccountContext, live_context}
use okk_analytics_codex_plug.Oauth.Token.{AccessToken, checked_context, verify_stored, verify_token}
use okk_analytics_codex_plug.Oauth.Token.Reuse.{find_access}

-- The context of an accepted token: OKK confirmed the account just now, or could not be reached.
abbrev pub Confirmed : Option AccountContext → Result AccountContext → Type 0
Confirmed (some context) outcome = outcome ≡ ok context
Confirmed none outcome = (message : String) × (outcome ≡ raised (unavailable message))

pub record Accepted (host : Host) (resource_url token : String) (w : World) (verified : AccessToken)
    : Type 0 where
  pub stored : Token
  pub found : find_access (host.sha256_hex token) w.tokens ≡ some stored
  pub unrevoked : stored.revoked_at ≡ none
  pub live : host.now w.readings < stored.expires_at
  pub target : rstrip_slash stored.resource ≡ rstrip_slash resource_url
  pub scopes : verified.scopes ≡ split stored.scope
  pub subject : verified.subject ≡ stored.session_id
  pub account :
      Confirmed verified.context
        (live_context host stored.session_id (record w { readings = suc w.readings })).0

-- the outcome of the account check of an accepted token
record Checked (stored : Token) (outcome : Result AccountContext) (verified : AccessToken)
    : Type 0 where
  pub scopes : verified.scopes ≡ split stored.scope
  pub subject : verified.subject ≡ stored.session_id
  pub account : Confirmed verified.context outcome

same : {A : Type 0} {x y : A} → ok (some x) ≡ ok (some y) → x ≡ y
same h = cc

module _ (host : Host) where
  checked_lem :
      (stored : Token) (outcome : Result AccountContext) (w : World) (verified : AccessToken)
      → (checked_context host stored outcome w).0 ≡ ok (some verified)
      → Checked stored outcome verified
  unfolding checked_context
  checked_lem stored (ok context) w verified h =
      subst (Checked stored (ok context)) (same h)
        (record { scopes = refl; subject = refl; account = refl })
  checked_lem stored (raised (authentication_error message)) w verified h = cc
  checked_lem stored (raised (unavailable message)) w verified h =
      subst (Checked stored (raised (unavailable message))) (same h)
        (record { scopes = refl; subject = refl; account = (message, refl) })
  checked_lem stored (raised _) w verified h = cc

  -- no condition of the refusal holds
  not_refused :
      (stored : Token) (at : ℕ) (url : String)
      → (leb stored.expires_at at || not (str_eq (rstrip_slash stored.resource) url)) ≡ false
      → (at < stored.expires_at) × (rstrip_slash stored.resource ≡ url)
  not_refused stored at url h =
      (ground arith, (eq_iff (rstrip_slash stored.resource) url).0 (ground arith))

  module _ (resource_url token : String) (w : World) (verified : AccessToken) where
    stored-Accepted :
        (stored : Token)
        → find_access (host.sha256_hex token) w.tokens ≡ some stored
        → stored.revoked_at ≡ none
        → (verify_stored host (rstrip_slash resource_url) (some stored) w).0 ≡ ok (some verified)
        → Accepted host resource_url token w verified
    unfolding verify_stored
    stored-Accepted stored found unrevoked h =
        elim (Bool-cases (
          leb stored.expires_at (host.now w.readings)
          || not (str_eq (rstrip_slash stored.resource) (rstrip_slash resource_url)))) [
            | inl refused ↦ cc (rw (ap is_some unrevoked, refused) at h)
            | inr passed ↦
                let outcome =
                  live_context host stored.session_id (record w { readings = suc w.readings }) in
                let checked =
                  checked_lem stored outcome.0 outcome.1 verified
                    (rw (ap is_some unrevoked, passed) at h) in
                let (live, target) =
                  not_refused stored (host.now w.readings) (rstrip_slash resource_url) passed in
                record {
                  stored = stored;
                  found = found;
                  unrevoked = unrevoked;
                  live = live;
                  target = target;
                  scopes = checked.scopes;
                  subject = checked.subject;
                  account = checked.account;
                }
          ]

    revoked_refused :
        (stored : Token) (at : ℕ)
        → stored.revoked_at ≡ some at
        → (verify_stored host (rstrip_slash resource_url) (some stored) w).0 ≢ ok (some verified)
    unfolding verify_stored
    revoked_refused stored at e h = cc (rw (ap is_some e) at h)

    nothing_stored : (verify_stored host (rstrip_slash resource_url) none w).0 ≢ ok (some verified)
    unfolding verify_stored
    nothing_stored h = cc

    -- A token that the verifier accepts is the access token of a stored row that is neither revoked
    -- nor expired and was issued for the verifier's resource; the verified scopes and subject are
    -- those of the row, and the account context is the one that OKK just confirmed, or is missing
    -- because OKK was unavailable.
    pub verify_token-Accepted :
        (verify_token host resource_url token w).0 ≡ ok (some verified)
        → Accepted host resource_url token w verified
    unfolding verify_token
    verify_token-Accepted h = elim (Option-cases (find_access (host.sha256_hex token) w.tokens)) [
      | inl missing ↦ absurd (nothing_stored (rw missing at h))
      | inr (stored, found) ↦ elim (Option-cases stored.revoked_at) [
        | inl unrevoked ↦ stored-Accepted stored found unrevoked (rw found at h)
        | inr (at, revoked) ↦ absurd (revoked_refused stored at revoked (rw found at h))
      ]
    ]
