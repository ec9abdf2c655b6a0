-- ===== src/Analytics/SupervisorTranscript.antt =====
-- `get_supervisor_call_transcript` of server/okk_mcp/backend_client.py. Departments and employees among its
-- arguments are ignored.
pub mod Supervised
use okk_analytics_codex_plug.Common.{
  ℕ, String, Bool, true, false, not, Option, none, some, if◌then◌else◌,
}
use Prim.Native.String
use okk_analytics_codex_plug.Errors.{Exc, Result, ok, raised, is_not_available}
use okk_analytics_codex_plug.Json.{
  Json, text, object, Row, no_fields, field, get, merge, dict_or_empty, as_dict,
}
use okk_analytics_codex_plug.Json.Equality.{same}
use okk_analytics_codex_plug.Effect.{Host, pure, lift, raise, settle, ◌>>=◌}
use okk_analytics_codex_plug.Oauth.Types.{Settings}
use okk_analytics_codex_plug.Analytics.Adapter.{Call, get_json}
use okk_analytics_codex_plug.Analytics.Journal.{id_of}
use okk_analytics_codex_plug.Analytics.Supervisors.{restricted_supervisor}
use okk_analytics_codex_plug.Analytics.Calls.Visible.{visible_call}
use okk_analytics_codex_plug.Analytics.Envelope.{Envelope, envelope}
use okk_analytics_codex_plug.Analytics.Transcripts.Handed.{
  TranscriptArgs, transcript_status, transcript_data,
}
use okk_analytics_codex_plug.Analytics.CallTranscript.{not_shown}

-- `supervisor_scope`
unfoldable pub supervisor_scope : Row → Row
unfolding get
supervisor_scope supervisor = field "section" (text "supervisors") (
    field "supervisor_id" (get "id" supervisor)
      (field "supervisor_name" (get "full_name" supervisor) no_fields))

-- `(call.get("employee") or {}).get("section") == "supervisors"`
unfoldable pub of_supervisor : Row → Bool
unfolding get dict_or_empty same
of_supervisor call = same (get "section" (dict_or_empty (get "employee" call))) (text "supervisors")

module _ (host : Host) where
  unfoldable pub supervisor_envelope : Row → Row → Row → TranscriptArgs → Envelope
  unfolding transcript_data supervisor_scope merge envelope
  supervisor_envelope supervisor call payload args =
      let handed = transcript_data host call payload args in
      envelope (object (field "supervisor" (object supervisor) handed.fields))
        (transcript_status handed)
        (merge (supervisor_scope supervisor) (
          field "call_id" (text args.call_id)
            (field "transcript_format" (text args.transcript_format) no_fields)))
        none 0 none

  module _ (settings : Settings) (session_id : ℕ) where
    -- what OKK says of a transcript
    unfoldable pub supervised_answer : TranscriptArgs → Row → Row → Result Json → Call Envelope
    unfolding supervisor_envelope as_dict is_not_available
    supervised_answer args supervisor call (raised e) =
        if is_not_available e then pure not_shown else raise e
    supervised_answer args supervisor call (ok payload) = do
      p ← lift (as_dict payload)
      pure (supervisor_envelope supervisor call p args)

    -- the transcript of a call that is shown, if it is a supervisor's
    unfoldable pub supervised_transcript : TranscriptArgs → Row → Option Row → Call Envelope
    unfolding supervised_answer of_supervisor
    supervised_transcript args supervisor none = pure not_shown
    supervised_transcript args supervisor (some call) =
        if not (of_supervisor call)
        then pure not_shown
        else settle
            (get_json host session_id
              (String.◌++◌ "/calls/" (String.◌++◌ args.call_id "/transcript"))
              (field "format" (text args.transcript_format) no_fields))
            (supervised_answer args supervisor call)

    -- what OKK says of the call
    unfoldable pub supervised_call : TranscriptArgs → Row → Result Json → Call Envelope
    unfolding supervised_transcript as_dict is_not_available
    supervised_call args supervisor (raised e) =
        if is_not_available e then pure not_shown else raise e
    supervised_call args supervisor (ok payload) = do
      raw ← lift (as_dict payload)
      call ← visible_call host settings session_id raw none (some (id_of host supervisor))
      supervised_transcript args supervisor call

    unfoldable pub for_supervisor : TranscriptArgs → Option Row → Call Envelope
    unfolding supervised_call
    for_supervisor args none = pure not_shown
    for_supervisor args (some supervisor) =
        settle (get_json host session_id (String.◌++◌ "/calls/" args.call_id) no_fields)
          (supervised_call args supervisor)

    -- `get_supervisor_call_transcript`
    unfoldable pub get_supervisor_call_transcript : String → TranscriptArgs → Call Envelope
    unfolding for_supervisor
    get_supervisor_call_transcript supervisor_id args = do
      supervisor ← restricted_supervisor host session_id supervisor_id
      for_supervisor args supervisor
