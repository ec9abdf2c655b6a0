-- ===== src/Tests/Client.antt =====
-- The limit, the errors and the scopes of a tool call at concrete inputs.
use okk_analytics_codex_plug.Common.{
  ℕ, suc, ◌-◌, ◌≤◌, ◌≡◌, refl, sym, All, IsWord, String, Bool-cases, inl, inr, none, some, List, [],
  ◌∷◌, str_eq, is_space, eq_iff, arith, if◌then◌else◌,
}
use okk_analytics_codex_plug.Errors.{Result, ok}
use okk_analytics_codex_plug.Json.{Row}
use okk_analytics_codex_plug.Oauth.Token.{AccessToken}
use okk_analytics_codex_plug.Analytics.Adapter.{Call}
use okk_analytics_codex_plug.Analytics.Envelope.{Envelope, unavailable_department}
use okk_analytics_codex_plug.Effect.Outcomes.{same_outcome}
use okk_analytics_codex_plug.Client.{ClientState}
use okk_analytics_codex_plug.Client.Limit.{Redis, limit_key}
use okk_analytics_codex_plug.Client.Bounded.{Calls, admitted_calls, admitted_calls_bound}
use okk_analytics_codex_plug.Tools.{Tool, call_transcript}
use okk_analytics_codex_plug.Tools.Server.{call_tool}
use okk_analytics_codex_plug.Tools.Server.Granted.{IsScopedRun, call_tool-IsScopedRun}
use okk_analytics_codex_plug.Tests.Setup.{host, settings, world_with}
use okk_analytics_codex_plug.Tests.Analytics.{member}

-- the keys that were counted, one entry for each count
abbrev occurrences : String → List String → ℕ
occurrences k [] = 0
occurrences k (j ∷ js) = let rest = occurrences k js in if str_eq k j then suc rest else rest

counted_twice : (k : String) (s : List String) → occurrences k (k ∷ s) ≡ suc (occurrences k s)
counted_twice k s = rw ((eq_iff k k).1 refl)

never_less : (k j : String) (s : List String) → occurrences k s ≤ occurrences k (j ∷ s)
never_less k j s = elim (Bool-cases (str_eq k j)) [
  | inl e ↦ rw e (omega arith)
  | inr e ↦ rw e (omega arith)
]

counted_key :
    (k : String) (s t : List String) (n : ℕ)
    → ◌≡◌ {A = Result ℕ × List String} (ok (suc (occurrences k s)), k ∷ s) (ok n, t)
    → (n ≡ suc (occurrences k s)) × (occurrences k t ≡ n)
counted_key k s t n h = let (a, b) = same_outcome h in (sym a, rw (← b, counted_twice k s) a)

abbrev redis : Redis
redis = record {
  State = List String;
  count = occurrences;
  incr = λ k s. (ok (suc (occurrences k s)), k ∷ s);
  counts = counted_key;
  grows = λ j k s. never_less k j s;
}

abbrev calls : Calls
calls = ("s1", 120) ∷ (("s2", 121) ∷ (("s1", 130) ∷ []))

admitted_calls_bound_example :
    admitted_calls host settings redis (limit_key host "s1" 2) calls [] ≤ 60 - 0
admitted_calls_bound_example =
    admitted_calls_bound host settings redis (λ k s. (suc (occurrences k s), k ∷ s, refl))
      (limit_key host "s1" 2) calls []

abbrev dispatch : ℕ → String → Row → Call Envelope
dispatch session_id path params s = (ok unavailable_department, s)

abbrev uuid_text : ℕ → String
uuid_text n = "uuid"

abbrev token : AccessToken
token = record {
  client_id = "c1";
  scopes = "openid" ∷ ("okk.statistics.read" ∷ []);
  expires_at = 0;
  resource = "https://mcp.example.com/mcp";
  subject = 7;
  context = some member;
}

abbrev state : ClientState redis
state = (world_with [] [], [])

abbrev transcript_call : Tool
transcript_call = call_transcript "c1" "diarized" 16000 500 0 0 none none

words : All IsWord ("openid" ∷ ("okk.statistics.read" ∷ []))
unfolding is_space
words = (
  record { some_char = refl; no_space = refl },
  (record { some_char = refl; no_space = refl }, tt),
)

-- a transcript is asked for without the scope of transcripts
call_tool-IsScopedRun_example :
    IsScopedRun ok host settings redis dispatch uuid_text uuid_text 120
      (some token)
      transcript_call
      state
      (call_tool ok host settings redis dispatch uuid_text uuid_text 120
        (some token)
        transcript_call
        state)
call_tool-IsScopedRun_example =
    call_tool-IsScopedRun ok host settings redis dispatch uuid_text uuid_text 120 (some token)
      transcript_call state words
