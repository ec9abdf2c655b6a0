-- ===== src/Security/Redirects/Registered.antt =====
-- Which redirect URIs a client can have.
use okk_analytics_codex_plug.Common.{
  String, ◌≡◌, refl, sym, Bool, true, false, Bool-cases, inl, inr, ◌⊎◌, List, not, ◌||◌, nonempty,
  str_eq, eq_iff, contains, arith, subst,
}
use okk_analytics_codex_plug.Errors.{ok}
use okk_analytics_codex_plug.Effect.Outcomes.{not_ok, ok_injective, result_bind-ok}
use okk_analytics_codex_plug.Security.Redirects.{
  Url, Net, host_or_empty, given_text, serialize_redirect_host, is_loopback_host, is_malformed,
  check_port, check_scheme, validate_redirect_uri, validate_registered_redirect_uri,
}

-- The URI as the validation leaves it: HTTPS, or HTTP to this computer, with no credentials.
pub record IsRedirect (net : Net) (uri validated : String) : Type 0 where
  pub unchanged : validated ≡ uri
  pub well_formed : is_malformed net uri ≡ false
  pub no_username : given_text (net.urlparse uri).username ≡ false
  pub no_password : given_text (net.urlparse uri).password ≡ false
  pub secure :
      ((net.urlparse uri).scheme ≡ "https")
      ⊎ (((net.urlparse uri).scheme ≡ "http")
          × (is_loopback_host net (host_or_empty (net.urlparse uri).hostname) ≡ true))

none_given : (a b c d : Bool) → (not a || not b || c || d) ≡ false → (c ≡ false) × (d ≡ false)
none_given a b c d h = (ground arith, ground arith)

both_hold : (a b : Bool) → (not a || not b) ≡ false → (a ≡ true) × (b ≡ true)
both_hold a b h = (ground arith, ground arith)

either : (a b : Bool) → (a || b) ≡ true → (a ≡ true) ⊎ (b ≡ true)
either true b h = inl refl
either false b h = inr h

module _ (net : Net) where
  check_scheme-ok :
      (uri validated : String) (parsed : Url)
      → check_scheme net uri parsed ≡ ok validated
      → (validated ≡ uri)
        × ((parsed.scheme ≡ "https")
            ⊎ ((parsed.scheme ≡ "http")
                × (is_loopback_host net (host_or_empty parsed.hostname) ≡ true)))
  unfolding check_scheme
  check_scheme-ok uri validated parsed h = elim (Bool-cases (str_eq parsed.scheme "https")) [
    | inl e ↦ (sym (ok_injective (rw e at h)), inl ((eq_iff parsed.scheme "https").0 e))
    | inr e ↦
        let http = str_eq parsed.scheme "http" in
        let loopback = is_loopback_host net (host_or_empty parsed.hostname) in
        elim (Bool-cases (not http || not loopback)) [
          | inl k ↦ absurd (not_ok (rw (e, k) at h))
          | inr k ↦
              let (plain, here) = both_hold http loopback k in
              (
                sym (ok_injective (rw (e, k) at h)),
                inr ((eq_iff parsed.scheme "http").0 plain, here),
              )
        ]
  ]

  validate_redirect_uri-IsRedirect :
      (uri validated : String)
      → validate_redirect_uri net uri ≡ ok validated
      → IsRedirect net uri validated
  unfolding validate_redirect_uri
  validate_redirect_uri-IsRedirect uri validated h =
      let parsed = net.urlparse uri in
      elim (Bool-cases (is_malformed net uri)) [
        | inl e ↦ absurd (not_ok (rw e at h))
        | inr e ↦
            elim (Bool-cases (
              not (nonempty parsed.scheme)
              || not (given_text parsed.hostname)
              || given_text parsed.username
              || given_text parsed.password)) [
                | inl k ↦ absurd (not_ok (rw (e, k) at h))
                | inr k ↦
                    let (user, pass) =
                      none_given (nonempty parsed.scheme) (given_text parsed.hostname)
                        (given_text parsed.username) (given_text parsed.password) k in
                    let (host, _, h1) =
                      result_bind-ok (serialize_redirect_host net (host_or_empty parsed.hostname)) _
                        validated (rw (e, k) at h) in
                    let (_, _, h2) = result_bind-ok (check_port net parsed.port) _ validated h1 in
                    let (same, secure) = check_scheme-ok uri validated parsed h2 in
                    record {
                      unchanged = same;
                      well_formed = e;
                      no_username = user;
                      no_password = pass;
                      secure = secure;
                    }
              ]
      ]

  -- A redirect URI that a client may register or use is left as it is written; it is well formed,
  -- carries no credentials, uses HTTPS or, to this computer, HTTP; and it leads to this computer or is
  -- exactly one of the allowed addresses.
  pub registered_redirect_lem :
      (uri validated : String) (allowed_uris : List String)
      → validate_registered_redirect_uri net uri allowed_uris ≡ ok validated
      → IsRedirect net uri validated
        × ((is_loopback_host net (host_or_empty (net.urlparse uri).hostname) ≡ true)
            ⊎ (contains uri allowed_uris ≡ true))
  unfolding validate_registered_redirect_uri
  registered_redirect_lem uri validated allowed_uris h =
      let (checked, valid, h1) = result_bind-ok (validate_redirect_uri net uri) _ validated h in
      let redirect = validate_redirect_uri-IsRedirect uri checked valid in
      let loopback = is_loopback_host net (host_or_empty (net.urlparse checked).hostname) in
      elim (Bool-cases (loopback || contains checked allowed_uris)) [
        | inl e ↦
            let same = ok_injective (rw e at h1) in
            (
              subst (IsRedirect net uri) same redirect,
              rw⁻¹ redirect.unchanged (either loopback (contains checked allowed_uris) e),
            )
        | inr e ↦ absurd (not_ok (rw e at h1))
      ]
