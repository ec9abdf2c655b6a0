-- ===== src/Oauth/Register/Registered.antt =====
-- What holds of a client that `register_client` of server/okk_mcp/oauth.py registers.
use okk_analytics_codex_plug.Common.{
  ℕ, String, ◌≡◌, refl, ◌∙◌, ap, subst, Bool, true, false, Option, none, some, List, [], ◌∷◌, All,
  not, str_eq, if◌then◌else◌,
}
use okk_analytics_codex_plug.Errors.{Result, ok, raised}
use okk_analytics_codex_plug.Models.{Client}
use okk_analytics_codex_plug.Effect.{Host, World, Action, grants, continue, pure}
use okk_analytics_codex_plug.Effect.Preserves.{Preserves, preserve_rules}
use okk_analytics_codex_plug.Platform.Account.Frame.{now-grants}
use okk_analytics_codex_plug.Oauth.Store.{in_transaction, rolled_back}
use okk_analytics_codex_plug.ClientMetadata.Slices.{unique}
use okk_analytics_codex_plug.Maintenance.Rows.{keep-All}
use okk_analytics_codex_plug.Security.Redirects.{Net, validate_registered_redirect_uri}
use okk_analytics_codex_plug.Security.Redirects.Registered.{registered_redirect_lem}
use okk_analytics_codex_plug.Security.Scopes.{validate_scopes}
use okk_analytics_codex_plug.Security.Scopes.Canonical.{validate_scopes-split}
use okk_analytics_codex_plug.Oauth.Types.{Settings}
use okk_analytics_codex_plug.Oauth.Invariant.{Allowed}
use okk_analytics_codex_plug.Oauth.Register.{
  Limits, Payload, Registration, refused, registered, checked_redirects,
  check_registration_rate_limit, save_client, checked_flow, with_redirects, listed,
  submitted_payload, register_client, check_count,
}

-- An address that the gateway may send a code to.
abbrev pub IsAllowedRedirect : Net → List String → String → Type 0
IsAllowedRedirect net allowed uri = validate_registered_redirect_uri net uri allowed ≡ ok uri

pub record IsRegistrable (net : Net) (settings : Settings) (c : Client) : Type 0 where
  pub redirects : All (IsAllowedRedirect net settings.oauth_redirect_uris) c.redirect_uris
  pub scope : Allowed c.scope
  pub public : c.token_endpoint_auth_method ≡ "none"
  pub code_flow : c.response_types ≡ "code" ∷ []

unique-All : (P : String → Type 0) (xs : List String) → All P xs → All P (unique xs)
unfolding unique
unique-All P [] h = tt
unique-All P (x ∷ xs) h =
    (h.0, keep-All P P (λ y. not (str_eq y x)) (unique xs) (λ y e p. p) (unique-All P xs h.1))

AllAllowed : Net → List String → Result (List String) → Type 0
AllAllowed net allowed (raised e) = Unit
AllAllowed net allowed (ok uris) = All (IsAllowedRedirect net allowed) uris

module _ (net : Net) (allowed : List String) where
  abbrev join_checked : Result String → Result (List String) → Result (List String)
  join_checked first later = elim first [
    | raised e ↦ raised e
    | ok validated ↦ elim later [ raised e ↦ raised e | ok vs ↦ ok (validated ∷ vs) ]
  ]

  joined :
      (uri : String) (first : Result String) (later : Result (List String))
      → validate_registered_redirect_uri net uri allowed ≡ first
      → AllAllowed net allowed later
      → AllAllowed net allowed (join_checked first later)
  unfolding AllAllowed
  joined uri (raised e) later h k = tt
  joined uri (ok v) (raised e) h k = tt
  joined uri (ok v) (ok vs) h k =
      let same = (registered_redirect_lem net uri v allowed h).0.unchanged in
      (rw same (h ∙ ap ok same), k)

  checked-AllAllowed :
      (uris : List String) → AllAllowed net allowed (checked_redirects net allowed uris)
  unfolding checked_redirects AllAllowed
  checked-AllAllowed [] = tt
  checked-AllAllowed (uri ∷ rest) = joined uri _ _ refl (checked-AllAllowed rest)

AllowedScope : Result String → Type 0
AllowedScope (raised e) = Unit
AllowedScope (ok scope) = Allowed scope

validated-AllowedScope :
    (s : Option String) (r : Result String) → validate_scopes s ≡ r → AllowedScope r
unfolding AllowedScope
validated-AllowedScope s (raised e) h = tt
validated-AllowedScope s (ok t) h = (validate_scopes-split s t h).1

-- The outcome of a registration: a refusal stores nothing, and a registrable client that is answered is the
-- one row that was added.
abbrev pub Outcome : Net → Settings → List Client → Result Registration × World → Type 0
Outcome net settings before (raised e, after) = after.clients ≡ before
Outcome net settings before (ok (refused e d), after) = after.clients ≡ before
Outcome net settings before (ok (registered c), after) =
    IsRegistrable net settings c × (after.clients ≡ c ∷ before)

-- the same inside of the transaction, where an exception is not rolled back yet
abbrev Pending : Net → Settings → List Client → Result Registration × World → Type 0
Pending net settings before (raised e, after) = Unit
Pending net settings before (ok r, after) = Outcome net settings before (ok r, after)

committed :
    (net : Net) (settings : Settings) (w : World) (out : Result Registration × World)
    → Pending net settings w.clients out
    → Outcome net settings w.clients (rolled_back w out)
unfolding rolled_back
committed net settings w (raised e, after) h = refl
committed net settings w (ok r, after) h = h

record Returns (net : Net) (settings : Settings) (m : Action Registration) : Type 0 where
  pub at : (w : World) → Pending net settings w.clients (m w)

module _ (host : Host) (settings : Settings) (net : Net) (limits : Limits) where
  save-Returns :
      (payload : Payload) (redirects : List String) (scope : String)
      → All (IsAllowedRedirect net settings.oauth_redirect_uris) redirects
      → Allowed scope
      → Returns net settings (save_client host settings net limits payload redirects scope)
  unfolding save_client
  save-Returns payload redirects scope h k = record {
    at = λ w. (
      record {
        redirects = unique-All (IsAllowedRedirect net settings.oauth_redirect_uris) redirects h;
        scope = k;
        public = refl;
        code_flow = refl;
      },
      refl,
    );
  }

  if-Returns :
      (b : Bool) (m n : Action Registration)
      → Returns net settings m
      → Returns net settings n
      → Returns net settings (if b then m else n)
  if-Returns true m n h k = h
  if-Returns false m n h k = k

  refused-Returns :
      (error description : String) → Returns net settings (pure (refused error description))
  refused-Returns error description = record { at = λ w. refl }

  flow-Returns :
      (payload : Payload) (redirects : List String) (r : Result String)
      → All (IsAllowedRedirect net settings.oauth_redirect_uris) redirects
      → AllowedScope r
      → Returns net settings (checked_flow host settings net limits payload redirects r)
  unfolding checked_flow AllowedScope
  flow-Returns payload redirects (raised e) h k = search refused-Returns
  flow-Returns payload redirects (ok scope) h k =
      search (if-Returns, refused-Returns, save-Returns, h, k) depth 8

  redirects-Returns :
      (payload : Payload) (r : Result (List String))
      → AllAllowed net settings.oauth_redirect_uris r
      → Returns net settings (with_redirects host settings net limits payload r)
  unfolding with_redirects AllAllowed
  redirects-Returns payload (raised e) h = search refused-Returns
  redirects-Returns payload (ok redirects) h =
      flow-Returns payload redirects (validate_scopes payload.scope) h
        (validated-AllowedScope payload.scope (validate_scopes payload.scope) refl)

  listed-Returns :
      (payload : Payload) (o : Option (List String))
      → Returns net settings (listed host settings net limits payload o)
  unfolding listed
  listed-Returns payload none = search refused-Returns
  listed-Returns payload (some uris) =
      search (if-Returns, refused-Returns, redirects-Returns, checked-AllAllowed) depth 8

  submitted-Returns :
      (body : Option Payload)
      → Returns net settings (submitted_payload host settings net limits body)
  unfolding submitted_payload
  submitted-Returns none = search refused-Returns
  submitted-Returns (some payload) = listed-Returns payload payload.redirect_uris

  count-grants : (limit : ℕ) (o : Option ℕ) → Preserves grants (check_count limit o)
  unfolding check_count
  count-grants limit none = search preserve_rules
  count-grants limit (some n) = search preserve_rules depth 6

  limit-grants :
      (caller : Option String)
      → Preserves grants (check_registration_rate_limit host settings net limits caller)
  unfolding check_registration_rate_limit
  limit-grants caller = search (preserve_rules, now-grants, count-grants) depth 10

  after_limit :
      (body : Option Payload) (before : List Client) (r : Result (Unit {0})) (w : World)
      → w.clients ≡ before
      → Pending net settings before
          (continue r (λ u. submitted_payload host settings net limits body) w)
  after_limit body before (raised e) w h = tt
  after_limit body before (ok u) w h =
      subst
        (λ clients.
          Pending net settings clients (submitted_payload host settings net limits body w))
        h ((submitted-Returns body).at w)

  -- A client that is registered can send people back only to addresses that the gateway allows, asks
  -- for allowed scopes only, and is a public client of the code flow; it is answered as it is stored, and
  -- is the only row that was added to the clients. A refusal stores no client.
  pub register_client-Outcome :
      (caller : Option String) (body : Option Payload) (w : World)
      → Outcome net settings w.clients (register_client host settings net limits caller body w)
  unfolding register_client in_transaction
  register_client-Outcome caller body w =
      let check = check_registration_rate_limit host settings net limits caller in
      committed net settings w _ (
        after_limit body w.clients (check w).0 (check w).1
          (ap (λ g. g.0) ((limit-grants caller).at w)))
