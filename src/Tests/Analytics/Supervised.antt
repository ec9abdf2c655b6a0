-- ===== src/Tests/Analytics/Supervised.antt =====
-- The transcript of a supervisor's call, at a concrete input.
use okk_analytics_codex_plug.Common.{some, [], ◌∷◌, true}
use okk_analytics_codex_plug.Effect.{Host}
use okk_analytics_codex_plug.Json.{text, boolean, null, Row, no_fields, field}
use okk_analytics_codex_plug.Analytics.Adapter.{AdapterState, context}
use okk_analytics_codex_plug.Analytics.Supervisors.{restricted_supervisors}
use okk_analytics_codex_plug.Analytics.Calls.{safe_supervisor_call}
use okk_analytics_codex_plug.Analytics.Envelope.{Envelope}
use okk_analytics_codex_plug.Analytics.SupervisorTranscript.{supervisor_envelope}
use okk_analytics_codex_plug.Tests.Setup.{world_with}
use okk_analytics_codex_plug.Tests.Analytics.{member, department}
use okk_analytics_codex_plug.Tests.Analytics.Transcripts.{okk_with, told, args}

abbrev supervisor : Row
supervisor = field "id" (text "s1") (
    field "full_name" (text "Olga") (
      field "position" null
        (field "is_active" (boolean true) (field "section" (text "supervisors") no_fields))))

abbrev catalog : AdapterState
catalog = record {
  context = some member;
  departments = some (department ∷ []);
  restricted_supervisors = some (supervisor ∷ []);
  call_employees = [];
  world = world_with [] [];
}

abbrev supervised : Row
supervised = field "id" (text "c1") (field "employee_id" (text "s1") no_fields)

abbrev okk : Host
okk = okk_with supervised

abbrev shown : Envelope
unfolding supervisor_envelope safe_supervisor_call
shown =
    supervisor_envelope okk supervisor (safe_supervisor_call okk supervised supervisor) told args
