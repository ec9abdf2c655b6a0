-- ===== src/Tools/Server/Granted.antt =====
-- No tool of server/okk_mcp/server.py reads without its scopes, and a step-up asks for no less than before.
use okk_analytics_codex_plug.Common.{
  ℕ, ◌≢◌, ◌≡◌, refl, sym, ◌∙◌, String, Bool, true, false, not, ◌||◌, Bool-cases, inl, inr, Option,
  none, List, [], ◌∷◌, ◌++◌, any, keep, contains, contains-append, subset, subset_of_members,
  sorted_set, contains-sorted_set, All-sorted_set, split, split-join, IsWord, is_space, eq_iff, All,
  All-append,
}
use okk_analytics_codex_plug.Errors.{Result, ok, raised}
use okk_analytics_codex_plug.Json.{Row}
use okk_analytics_codex_plug.Effect.{Host}
use okk_analytics_codex_plug.Oauth.Types.{Settings}
use okk_analytics_codex_plug.Oauth.Token.{AccessToken}
use okk_analytics_codex_plug.Analytics.Adapter.{Call}
use okk_analytics_codex_plug.Analytics.Envelope.{Envelope}
use okk_analytics_codex_plug.Client.{ClientState}
use okk_analytics_codex_plug.Client.Limit.{Redis}
use okk_analytics_codex_plug.Tools.{
  Tool, access_context, overview_statistics, department_statistics, compare_departments,
  list_employees, list_supervisors, supervisor_call_statistics, employee_card, compare_employees,
  call_statistics, call_phone_records, call_transcripts, call_filter_options, call_transcript,
  search_call_transcripts, supervisor_call_transcripts, supervisor_call_transcript,
  search_supervisor_call_transcripts, plan_fact_statistics, client_statistics, crm_statistics,
  growth_insights, list_scenarios, scenario_criteria, scenario_performance, criterion_performance,
  required_scopes, stat_scope, scenario_scope, transcript_scope, phone_scope,
}
use okk_analytics_codex_plug.Tools.Routes.{Read, route}
use okk_analytics_codex_plug.Tools.Server.{
  ToolAnswer, answer, step_up, granted_scopes, missing_scopes, scopes_to_ask, shown_answer,
  read_outcome, read_tool, run_routed, call_tool,
}

stat_scope-IsWord : IsWord stat_scope
unfolding is_space
stat_scope-IsWord = record { some_char = refl; no_space = refl }

scenario_scope-IsWord : IsWord scenario_scope
unfolding is_space
scenario_scope-IsWord = record { some_char = refl; no_space = refl }

transcript_scope-IsWord : IsWord transcript_scope
unfolding is_space
transcript_scope-IsWord = record { some_char = refl; no_space = refl }

phone_scope-IsWord : IsWord phone_scope
unfolding is_space
phone_scope-IsWord = record { some_char = refl; no_space = refl }

required_scopes-IsWord : (t : Tool) → All IsWord (required_scopes t)
unfolding required_scopes
required_scopes-IsWord access_context = (stat_scope-IsWord, tt)
required_scopes-IsWord (overview_statistics _ _ _) = (stat_scope-IsWord, tt)
required_scopes-IsWord (department_statistics _ _ _) = (stat_scope-IsWord, tt)
required_scopes-IsWord (compare_departments _ _) = (stat_scope-IsWord, tt)
required_scopes-IsWord (list_employees _ _ _ _ _) = (stat_scope-IsWord, tt)
required_scopes-IsWord (list_supervisors _) = (stat_scope-IsWord, tt)
required_scopes-IsWord (supervisor_call_statistics _ _) = (stat_scope-IsWord, tt)
required_scopes-IsWord (employee_card _ _ _) = (stat_scope-IsWord, tt)
required_scopes-IsWord (compare_employees _ _ _) = (stat_scope-IsWord, tt)
required_scopes-IsWord (call_statistics _ _ _) = (stat_scope-IsWord, tt)
required_scopes-IsWord (call_phone_records _ _ _ _ _ _ _ _) =
    (stat_scope-IsWord, (phone_scope-IsWord, tt))
required_scopes-IsWord (call_transcripts _ _ _ _ _ _ _ _ _) =
    (stat_scope-IsWord, (transcript_scope-IsWord, tt))
required_scopes-IsWord (call_filter_options _) = (stat_scope-IsWord, tt)
required_scopes-IsWord (call_transcript _ _ _ _ _ _ _ _) =
    (stat_scope-IsWord, (transcript_scope-IsWord, tt))
required_scopes-IsWord (search_call_transcripts _ _ _ _ _ _ _ _ _ _) =
    (stat_scope-IsWord, (transcript_scope-IsWord, tt))
required_scopes-IsWord (supervisor_call_transcripts _ _ _ _ _ _) =
    (stat_scope-IsWord, (transcript_scope-IsWord, tt))
required_scopes-IsWord (supervisor_call_transcript _ _ _ _ _ _ _) =
    (stat_scope-IsWord, (transcript_scope-IsWord, tt))
required_scopes-IsWord (search_supervisor_call_transcripts _ _ _ _ _ _ _) =
    (stat_scope-IsWord, (transcript_scope-IsWord, tt))
required_scopes-IsWord (plan_fact_statistics _ _ _ _) = (stat_scope-IsWord, tt)
required_scopes-IsWord (client_statistics _ _ _) = (stat_scope-IsWord, tt)
required_scopes-IsWord (crm_statistics _ _ _) = (stat_scope-IsWord, tt)
required_scopes-IsWord (growth_insights _ _ _ _) = (stat_scope-IsWord, tt)
required_scopes-IsWord (list_scenarios _ _ _ _ _) = (scenario_scope-IsWord, tt)
required_scopes-IsWord (scenario_criteria _ _) = (scenario_scope-IsWord, tt)
required_scopes-IsWord (scenario_performance _ _ _ _) =
    (stat_scope-IsWord, (scenario_scope-IsWord, tt))
required_scopes-IsWord (criterion_performance _ _ _ _ _ _) =
    (stat_scope-IsWord, (scenario_scope-IsWord, tt))

none_left :
    (granted required : List String)
    → ((x : String) → contains x (keep (λ s. not (contains s granted)) required) ≡ false)
    → subset required granted ≡ true
unfolding contains
none_left granted [] h = refl
none_left granted (s ∷ required) h = elim (Bool-cases (contains s granted)) [
  | inl e ↦ rw e (none_left granted required λ x. rw e at (h x))
  | inr e ↦ cc (rw (e, (eq_iff s s).1 refl) at (h s))
]

empty_set :
    (xs : List String)
    → any (λ s. true) (sorted_set xs) ≡ false
    → (x : String) → contains x xs ≡ false
unfolding contains
empty_set xs h x = sym (contains-sorted_set x xs) ∙ absent (sorted_set xs) h
  where
    absent : (ys : List String) → any (λ s. true) ys ≡ false → contains x ys ≡ false
    absent [] k = refl
    absent (y ∷ ys) k = cc

none_missing :
    (granted required : List String)
    → any (λ s. true) (missing_scopes granted required) ≡ false
    → subset required granted ≡ true
unfolding missing_scopes
none_missing granted required h =
    none_left granted required (empty_set (keep (λ s. not (contains s granted)) required) h)

in_union :
    (x : String) (xs ys : List String)
    → (contains x xs || contains x ys) ≡ true
    → contains x (sorted_set (xs ++ ys)) ≡ true
in_union x xs ys h = contains-sorted_set x (xs ++ ys) ∙ contains-append x xs ys ∙ h

asked-split :
    (granted required : List String)
    → All IsWord granted
    → All IsWord required
    → split (scopes_to_ask granted required) ≡ sorted_set (granted ++ required)
unfolding scopes_to_ask
asked-split granted required g r =
    split-join (sorted_set (granted ++ required))
      (All-sorted_set IsWord (granted ++ required) (All-append IsWord granted required g r))

no_step_up :
    (v : Result Envelope) (id : Option String) (m : List String) (scope : String)
    → shown_answer v id ≢ ok (step_up m scope)
no_step_up (ok e) id m scope h = cc
no_step_up (raised e) id m scope h = cc

right_true : (a b : Bool) → b ≡ true → (a || b) ≡ true
right_true true b h = refl
right_true false b h = h

challenge_scope :
    {m n : List String} {a b : String}
    → ◌≡◌ {A = Result ToolAnswer} (ok (step_up m a)) (ok (step_up n b))
    → a ≡ b
challenge_scope h = cc

module _ (validate : Envelope → Result Envelope) (host : Host) (settings : Settings) (redis : Redis)
    (dispatch : ℕ → String → Row → Call Envelope) (uuid_text iso : ℕ → String) (seconds : ℕ) where
  abbrev run : Option AccessToken → Tool → ClientState redis → Result ToolAnswer × ClientState redis
  run = call_tool validate host settings redis dispatch uuid_text iso seconds

  -- The outcome of a tool under a token.
  pub record IsScopedRun (token : Option AccessToken) (tool : Tool) (state : ClientState redis)
      (out : Result ToolAnswer × ClientState redis) : Type 0 where
    -- a tool whose scopes are not all granted answers with a challenge, and nothing happens
    pub withheld :
        subset (required_scopes tool) (granted_scopes token) ≡ false
        → (missing : List String) × (scope : String) × (out ≡ (ok (step_up missing scope), state))
    -- an answer with data is given only under all of the tool's scopes
    pub answered :
        (e : Envelope) (id : Option String)
        → out.0 ≡ ok (answer e id)
        → subset (required_scopes tool) (granted_scopes token) ≡ true
    -- the scopes to ask for hold those of the tool, and all that were granted
    pub widened :
        (missing : List String) (scope : String)
        → out.0 ≡ ok (step_up missing scope)
        → (subset (granted_scopes token) (split scope) ≡ true)
          × (subset (required_scopes tool) (split scope) ≡ true)

  outcome_no_challenge :
      (r : Result Envelope) (m : List String) (scope : String)
      → read_outcome validate r ≢ ok (step_up m scope)
  unfolding read_outcome
  outcome_no_challenge (ok e) m scope h =
      no_step_up (validate (record e { request_id = none })) e.request_id m scope h
  outcome_no_challenge (raised e) m scope h = cc

  no_challenge :
      (token : Option AccessToken) (read : Result Read) (state : ClientState redis)
      (m : List String) (scope : String)
      → (run_routed validate host settings redis dispatch uuid_text iso seconds token read state).0
        ≢ ok (step_up m scope)
  unfolding run_routed read_tool
  no_challenge token (raised e) state m scope h = cc
  no_challenge token (ok (path, params)) state m scope h = outcome_no_challenge _ m scope h

  asked :
      (token : Option AccessToken) (tool : Tool)
      → All IsWord (granted_scopes token)
      → (subset
            (granted_scopes token)
            (split (scopes_to_ask (granted_scopes token) (required_scopes tool)))
          ≡ true)
        × (subset
              (required_scopes tool)
              (split (scopes_to_ask (granted_scopes token) (required_scopes tool)))
            ≡ true)
  asked token tool words =
      let granted : List String = granted_scopes token in
      let required : List String = required_scopes tool in
      rw (asked-split granted required words (required_scopes-IsWord tool)) (
        subset_of_members granted (sorted_set (granted ++ required))
            (λ x h. in_union x granted required (rw h refl)),
        subset_of_members required (sorted_set (granted ++ required)) (λ x h.
            in_union x granted required (right_true (contains x granted) (contains x required) h)),
      )

  -- A tool reads and answers only under all of its scopes. Without one of them nothing is counted, sent
  -- or changed, and the answer asks for a sign-in with the tool's scopes and every scope granted before,
  -- so that stepping up loses none.
  pub call_tool-IsScopedRun :
      (token : Option AccessToken) (tool : Tool) (state : ClientState redis)
      → All IsWord (granted_scopes token)
      → IsScopedRun token tool state (run token tool state)
  unfolding call_tool
  call_tool-IsScopedRun token tool state words =
      elim (Bool-cases
        (any (λ s. true) (missing_scopes (granted_scopes token) (required_scopes tool)))) [
          | inl some_missing ↦ rw some_missing (record {
            withheld = λ h. (
              missing_scopes (granted_scopes token) (required_scopes tool),
              scopes_to_ask (granted_scopes token) (required_scopes tool),
              refl,
            );
            answered = λ e id h. cc;
            widened = λ m scope h. rw⁻¹ (challenge_scope h) (asked token tool words);
          })
          | inr all_granted ↦ rw all_granted (record {
            withheld =
                λ h. cc (none_missing (granted_scopes token) (required_scopes tool) all_granted);
            answered =
                λ e id h. none_missing (granted_scopes token) (required_scopes tool) all_granted;
            widened = λ m scope h. absurd (no_challenge token (route iso tool) state m scope h);
          })
        ]
