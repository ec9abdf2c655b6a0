-- ===== src/Oauth/Authorize/Codes.antt =====
-- The authorization code that a login of server/okk_mcp/oauth.py adds.
use okk_analytics_codex_plug.Common.{
  ℕ, ◌≤◌, String, ◌≡◌, refl, ap, subst, Bool-cases, inl, inr, ◌⊎◌, Option, none, some, List, ◌∷◌,
  ◌∙◌, length, strip,
}
use native.Mathlib.Nat.{le_trans}
use okk_analytics_codex_plug.Errors.{Result, ok, raised, authentication_error, unavailable}
use okk_analytics_codex_plug.Models.{Client, Code, Session}
use okk_analytics_codex_plug.Effect.{
  Host, World, Request, login, Action, continue, grants, settle, ◌>>◌,
}
use okk_analytics_codex_plug.Effect.Preserves.{Preserves, preserve_rules}
use okk_analytics_codex_plug.ClientMetadata.{is_metadata_document_client_id}
use okk_analytics_codex_plug.ClientMetadata.Network.{Web}
use okk_analytics_codex_plug.Platform.Account.{authenticate}
use okk_analytics_codex_plug.Platform.Account.Frame.{now-grants, authenticate-grants}
use okk_analytics_codex_plug.Platform.Account.Accepted.{
  SignedIn, DrawnFrom, authenticate-sent, authenticate-SignedIn,
}
use okk_analytics_codex_plug.Security.Redirects.{Net}
use okk_analytics_codex_plug.Oauth.Types.{Settings}
use okk_analytics_codex_plug.Oauth.Authorize.{AuthRequest, Page, LoginForm, Service, load_client}
use okk_analytics_codex_plug.Oauth.Authorize.Frame.{load_client-grants}
use okk_analytics_codex_plug.Oauth.Authorize.Login.{
  issued_code, within_limit, check_login_rate_limit, remember_metadata_document_client, issue_code,
  signed_in, log_in,
}

-- the codes, as a view of the world
abbrev codes_of : World → List Code
codes_of w = w.codes

pub codes_kept {ℓ} :
    {A : Type ℓ} (m : Action A) (w : World) → Preserves grants m → (m w).1.codes ≡ w.codes
codes_kept m w p = ap (λ g. g.1) (p.at w)

module _ (host : Host) (settings : Settings) (net : Net) (web : Web) (service : Service) where
  -- One code was added: for the client, the return address, the resource and the challenge of the
  -- signed request, with the granted scope, and for a session that OKK opened for the form's login.
  pub record CodeFor (form : LoginForm) (request : AuthRequest) (scope : String) (d : ℕ)
      (before : List Code) (out : Result Page × World) : Type 0 where
    pub page : Page
    pub answered : out.0 ≡ ok page
    pub client : Client
    pub session : Session
    -- the last request to OKK was the login with the form's email address and password, and OKK's answer
    -- to it was a login of the session's user
    pub earlier : List Request
    pub sent : out.1.sent ≡ login (strip form.email) form.password ∷ earlier
    pub signed_in : SignedIn (host.answer (length earlier)) session
    -- the session is a new one
    pub drawn : DrawnFrom host d session
    pub raw_code : String
    pub at : ℕ
    pub codes :
        out.1.codes ≡ issued_code host settings request client session scope raw_code at ∷ before

  remember-codes :
      (c : Client) (w : World)
      → (remember_metadata_document_client host settings net web service c w).0 ≡ ok tt
  unfolding remember_metadata_document_client
  remember-codes c w = elim (Bool-cases (is_metadata_document_client_id c.client_id)) [
    | inl e ↦ rw e refl
    | inr e ↦ rw e refl
  ]

  remember-same :
      (c : Client) (w : World)
      → (remember_metadata_document_client host settings net web service c w).1.codes ≡ w.codes
  unfolding remember_metadata_document_client
  remember-same c w = elim (Bool-cases (is_metadata_document_client_id c.client_id)) [
    | inl e ↦ rw e refl
    | inr e ↦ rw e refl
  ]

  remember-sent :
      (c : Client) (w : World)
      → (remember_metadata_document_client host settings net web service c w).1.sent ≡ w.sent
  unfolding remember_metadata_document_client
  remember-sent c w = elim (Bool-cases (is_metadata_document_client_id c.client_id)) [
    | inl e ↦ rw e refl
    | inr e ↦ rw e refl
  ]

  issue_code-CodeFor :
      (form : LoginForm) (request : AuthRequest) (client : Client) (session : Session)
      (scope : String) (earlier : List Request) (d : ℕ) (w : World)
      → w.sent ≡ login (strip form.email) form.password ∷ earlier
      → SignedIn (host.answer (length earlier)) session × DrawnFrom host d session
      → CodeFor form request scope d w.codes
          (issue_code host settings net web service request client session scope w)
  unfolding issue_code
  issue_code-CodeFor form request client session scope earlier d w sent (accepted, drawn) =
      let w1 = record w { db = record w.db { sessions = session ∷ w.sessions } } in
      let w2 = (remember_metadata_document_client host settings net web service client w1).1 in
      let new =
        issued_code host settings request client session scope (host.random w2.draws)
          (host.now w2.readings) in
      rw (remember-codes client w1) (record {
        page = _;
        answered = refl;
        client = client;
        session = session;
        earlier = earlier;
        sent = remember-sent client w1 ∙ sent;
        signed_in = accepted;
        drawn = drawn;
        raw_code = host.random w2.draws;
        at = host.now w2.readings;
        codes = ap (λ cs. new ∷ cs) (remember-same client w1);
      })

  -- No code is added, or one for the request.
  abbrev pub Outcome :
      LoginForm → AuthRequest → String → ℕ → List Code → Result Page × World → Type 0
  Outcome form request scope d before out =
      (out.1.codes ≡ before) ⊎ CodeFor form request scope d before out

  signed_in-Outcome :
      (form : LoginForm) (request : AuthRequest) (client : Client) (scope : String)
      (earlier : List Request) (d : ℕ) (w : World) (r : Result Session)
      → w.sent ≡ login (strip form.email) form.password ∷ earlier
      → ((session : Session)
          → r ≡ ok session
          → SignedIn (host.answer (length earlier)) session × DrawnFrom host d session)
      → Outcome form request scope d w.codes
          (signed_in host settings net web service form request client scope r w)
  unfolding signed_in
  signed_in-Outcome form request client scope earlier d w (ok session) sent accepted = inr (
      issue_code-CodeFor form request client session scope earlier d w sent (accepted session refl))
  signed_in-Outcome form request client scope earlier d w (raised (authentication_error m)) sent
        accepted =
      inl refl
  signed_in-Outcome form request client scope earlier d w (raised (unavailable m)) sent accepted =
      inl refl
  signed_in-Outcome form request client scope earlier d w (raised _) sent accepted = inl refl

  within-grants :
      (o : Option (List ℕ)) → Preserves grants (within_limit host settings net web service o)
  unfolding within_limit
  within-grants none = search preserve_rules
  within-grants (some counts) = search preserve_rules depth 6

  pub limit-grants : Preserves grants (check_login_rate_limit host settings net web service)
  unfolding check_login_rate_limit
  limit-grants = search (preserve_rules, now-grants, within-grants) depth 10

  -- the sign-in after the limit was checked
  limited-Outcome :
      (form : LoginForm) (request : AuthRequest) (client : Client) (scope : String)
      (r : Result (Unit {0})) (d : ℕ) (w : World)
      → d ≤ w.draws
      → Outcome form request scope d w.codes (
          continue r
            (λ _.
              settle
                (authenticate host form.email form.password)
                (signed_in host settings net web service form request client scope))
            w)
  limited-Outcome form request client scope (raised e) d w later = inl refl
  limited-Outcome form request client scope (ok u) d w later =
      subst
        (λ before. Outcome form request scope d before (
          signed_in host settings net web service form request client scope
            (authenticate host form.email form.password w).0
            (authenticate host form.email form.password w).1))
        (codes_kept (authenticate host form.email form.password) w
          (authenticate-grants host form.email form.password))
        (signed_in-Outcome form request client scope w.sent d
          (authenticate host form.email form.password w).1
          (authenticate host form.email form.password w).0
          (authenticate-sent host form.email form.password w)
          λ session e.
            let (accepted, (n, from, drawn)) =
              authenticate-SignedIn host form.email form.password w session e in
            (accepted, (n, le_trans later from, drawn)))

  loaded-Outcome :
      (form : LoginForm) (request : AuthRequest) (scope : String) (r : Result Client) (d : ℕ)
      (w : World)
      → d ≤ w.draws
      → Outcome form request scope d w.codes (
          continue r
            (λ client.
              check_login_rate_limit host settings net web service
              >> settle
                  (authenticate host form.email form.password)
                  (signed_in host settings net web service form request client scope))
            w)
  loaded-Outcome form request scope (raised e) d w later = inl refl
  loaded-Outcome form request scope (ok client) d w later =
      let m = check_login_rate_limit host settings net web service in
      subst
        (λ before. Outcome form request scope d before (
          continue (m w).0
            (λ _.
              settle (authenticate host form.email form.password)
                (signed_in host settings net web service form request client scope))
            (m w).1))
        (codes_kept m w limit-grants)
        (limited-Outcome form request client scope (m w).0 d (m w).1
          (le_trans later (limit-grants.grows w)))

  pub log_in-Outcome :
      (form : LoginForm) (request : AuthRequest) (scope : String) (d : ℕ) (w : World)
      → d ≤ w.draws
      → Outcome form request scope d w.codes
          (log_in host settings net web service form request scope w)
  unfolding log_in
  log_in-Outcome form request scope d w later =
      let m = load_client host settings net web service request.client_id request.redirect_uri in
      subst
        (λ before. Outcome form request scope d before (
          continue (m w).0
            (λ client.
              check_login_rate_limit host settings net web service
              >> settle (authenticate host form.email form.password)
                  (signed_in host settings net web service form request client scope))
            (m w).1))
        (codes_kept m w
          (load_client-grants host settings net web service request.client_id request.redirect_uri))
        (loaded-Outcome form request scope (m w).0 d (m w).1 (
          le_trans later (
            (load_client-grants host settings net web service request.client_id
                request.redirect_uri).grows
              w)))
