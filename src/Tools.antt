-- ===== src/Tools.antt =====
-- The tools of server/okk_mcp/server.py: their arguments, the scopes that each one needs, and the read
-- that it makes. A date is its ordinal, and an UUID its text.
pub mod Periods
pub mod Routes
pub mod Server
use okk_analytics_codex_plug.Common.{
  ℕ, String, Bool, not, Option, none, some, List, [], ◌∷◌, ltb, str_eq, is_some, if◌then◌else◌,
  ◌||◌,
}
use Prim.Native.String
use okk_analytics_codex_plug.Errors.{Result, ok, raised, ◌>>=◌, value_error}
use okk_analytics_codex_plug.Json.{
  Json, null, boolean, number, text, array, object, Row, no_fields, field, text_items, opt_text,
  truthy,
}
use okk_analytics_codex_plug.Tools.Periods.{PeriodArg, period_params}

abbrev pub stat_scope : String
stat_scope = "okk.statistics.read"

abbrev pub scenario_scope : String
scenario_scope = "okk.scenarios.read"

abbrev pub transcript_scope : String
transcript_scope = "okk.transcripts.read"

abbrev pub phone_scope : String
phone_scope = "okk.phones.read"

-- a call of a tool, with its arguments
pub data Tool : Type 0 where
  access_context : Tool
  overview_statistics : (p : PeriodArg) (department : Option String) (top_limit : ℕ) → Tool
  department_statistics : (department : String) (p : PeriodArg) (detail : String) → Tool
  compare_departments : (departments : Option (List String)) (p : PeriodArg) → Tool
  list_employees :
      (department : Option String) (sought : Option String) (include_inactive : Bool) (page : ℕ)
      (page_size : ℕ)
      → Tool
  list_supervisors : (sought : Option String) → Tool
  supervisor_call_statistics : (supervisor_id : String) (p : PeriodArg) → Tool
  employee_card : (employee_id : String) (department : Option String) (p : PeriodArg) → Tool
  compare_employees :
      (employee_ids : List String) (department : Option String) (p : PeriodArg) → Tool
  call_statistics :
      (p : PeriodArg) (department : Option String) (employee_id : Option String) → Tool
  call_phone_records :
      (phone_number : Option String) (p : PeriodArg) (department : Option String)
      (employee_id : Option String) (supervisor_id : Option String) (filters : Option Row)
      (page : ℕ) (page_size : ℕ)
      → Tool
  call_transcripts :
      (p : PeriodArg) (department : Option String) (employee_id : Option String)
      (scenario_id : Option String) (filters : Option Row) (transcript_format : String)
      (preview_chars : ℕ) (page : ℕ) (page_size : ℕ)
      → Tool
  call_filter_options : (department : Option String) → Tool
  call_transcript :
      (call_id : String) (transcript_format : String) (max_chars : ℕ) (max_segments : ℕ)
      (start_char : ℕ) (start_segment : ℕ) (department : Option String)
      (employee_id : Option String)
      → Tool
  search_call_transcripts :
      (wanted : String) (p : PeriodArg) (department : Option String) (employee_id : Option String)
      (scenario_id : Option String) (match_mode : String) (filters : Option Row) (context_chars : ℕ)
      (most : ℕ) (page : ℕ)
      → Tool
  supervisor_call_transcripts :
      (supervisor_id : String) (p : PeriodArg) (transcript_format : String) (preview_chars : ℕ)
      (page : ℕ) (page_size : ℕ)
      → Tool
  supervisor_call_transcript :
      (supervisor_id : String) (call_id : String) (transcript_format : String) (max_chars : ℕ)
      (max_segments : ℕ) (start_char : ℕ) (start_segment : ℕ)
      → Tool
  search_supervisor_call_transcripts :
      (supervisor_id : String) (wanted : String) (p : PeriodArg) (match_mode : String)
      (context_chars : ℕ) (most : ℕ) (page : ℕ)
      → Tool
  plan_fact_statistics :
      (first_day : ℕ) (last_day : ℕ) (department : Option String) (employee_id : Option String)
      → Tool
  client_statistics :
      (p : PeriodArg) (department : Option String) (employee_id : Option String) → Tool
  crm_statistics :
      (department : Option String) (employee_id : Option String) (snapshot_date : Option ℕ) → Tool
  growth_insights :
      (p : PeriodArg) (department : Option String) (employee_id : Option String) (most : ℕ) → Tool
  list_scenarios :
      (department : Option String) (sought : Option String) (include_historical : Bool) (page : ℕ)
      (page_size : ℕ)
      → Tool
  scenario_criteria : (scenario_id : String) (department : Option String) → Tool
  scenario_performance :
      (p : PeriodArg) (scenario_ids : Option (List String)) (department : Option String)
      (employee_id : Option String)
      → Tool
  criterion_performance :
      (p : PeriodArg) (scenario_id : Option String) (criterion_ids : Option (List String))
      (department : Option String) (employee_id : Option String) (most : ℕ)
      → Tool

abbrev pub opt_texts : Option (List String) → Json
opt_texts none = null
opt_texts (some xs) = array (text_items xs)

-- `_filters`: only the filters that the caller set, and nothing where none is set
unfoldable pub chosen_filters : Option Row → Json
unfolding truthy
chosen_filters none = null
chosen_filters (some row) = if truthy (object row) then object row else null

abbrev pub opt_date : (ℕ → String) → Option ℕ → Json
opt_date iso none = null
opt_date iso (some d) = text (iso d)

-- the scopes of `_require_scopes(...)`
unfoldable pub required_scopes : Tool → List String
required_scopes access_context = stat_scope ∷ []
required_scopes (overview_statistics _ _ _) = stat_scope ∷ []
required_scopes (department_statistics _ _ _) = stat_scope ∷ []
required_scopes (compare_departments _ _) = stat_scope ∷ []
required_scopes (list_employees _ _ _ _ _) = stat_scope ∷ []
required_scopes (list_supervisors _) = stat_scope ∷ []
required_scopes (supervisor_call_statistics _ _) = stat_scope ∷ []
required_scopes (employee_card _ _ _) = stat_scope ∷ []
required_scopes (compare_employees _ _ _) = stat_scope ∷ []
required_scopes (call_statistics _ _ _) = stat_scope ∷ []
required_scopes (call_phone_records _ _ _ _ _ _ _ _) = stat_scope ∷ phone_scope ∷ []
required_scopes (call_transcripts _ _ _ _ _ _ _ _ _) = stat_scope ∷ transcript_scope ∷ []
required_scopes (call_filter_options _) = stat_scope ∷ []
required_scopes (call_transcript _ _ _ _ _ _ _ _) = stat_scope ∷ transcript_scope ∷ []
required_scopes (search_call_transcripts _ _ _ _ _ _ _ _ _ _) = stat_scope ∷ transcript_scope ∷ []
required_scopes (supervisor_call_transcripts _ _ _ _ _ _) = stat_scope ∷ transcript_scope ∷ []
required_scopes (supervisor_call_transcript _ _ _ _ _ _ _) = stat_scope ∷ transcript_scope ∷ []
required_scopes (search_supervisor_call_transcripts _ _ _ _ _ _ _) =
    stat_scope ∷ transcript_scope ∷ []
required_scopes (plan_fact_statistics _ _ _ _) = stat_scope ∷ []
required_scopes (client_statistics _ _ _) = stat_scope ∷ []
required_scopes (crm_statistics _ _ _) = stat_scope ∷ []
required_scopes (growth_insights _ _ _ _) = stat_scope ∷ []
required_scopes (list_scenarios _ _ _ _ _) = scenario_scope ∷ []
required_scopes (scenario_criteria _ _) = scenario_scope ∷ []
required_scopes (scenario_performance _ _ _ _) = stat_scope ∷ scenario_scope ∷ []
required_scopes (criterion_performance _ _ _ _ _ _) = stat_scope ∷ scenario_scope ∷ []
