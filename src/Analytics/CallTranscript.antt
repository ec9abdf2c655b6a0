-- ===== src/Analytics/CallTranscript.antt =====
-- `get_call_transcript` of server/okk_mcp/backend_client.py.
pub mod Shown
use okk_analytics_codex_plug.Common.{
  ℕ, String, Bool, true, false, not, ◌&&◌, ◌||◌, Option, none, some, List, [], ◌∷◌, length, chars,
  nonempty, strip, str_eq, is_some, find_first, if◌then◌else◌,
}
use Prim.Native.String
use okk_analytics_codex_plug.Errors.{Exc, Result, ok, raised, is_not_available, key_error}
use okk_analytics_codex_plug.Json.{
  Json, null, boolean, number, text, array, object, Row, no_fields, field, get, has, set, items,
  from_list, dict_items, dict_or_empty, row_items, as_dict, merge, opt_text, truthy,
}
use okk_analytics_codex_plug.Json.Spelling.{spell_or_empty}
use okk_analytics_codex_plug.Effect.{Host, pure, lift, raise, settle, ◌>>=◌, ◌>>◌}
use okk_analytics_codex_plug.Oauth.Types.{Settings}
use okk_analytics_codex_plug.Analytics.Adapter.{Call, get_json}
use okk_analytics_codex_plug.Analytics.Journal.{id_of}
use okk_analytics_codex_plug.Analytics.Texts.{spoken}
use okk_analytics_codex_plug.Analytics.Departments.{departments, department_scope}
use okk_analytics_codex_plug.Analytics.Directory.{resolve_entity_scope}
use okk_analytics_codex_plug.Analytics.Calls.Visible.{visible_call}
use okk_analytics_codex_plug.Analytics.Envelope.{Envelope, envelope}
use okk_analytics_codex_plug.Analytics.Transcripts.Handed.{
  TranscriptArgs, Handed, transcript_status, transcript_data,
}

-- the envelopes of a call that is not shown
abbrev pub scope_refused : Envelope
unfolding envelope
scope_refused =
    envelope (object (field "reason" (text "requested_scope_not_available") no_fields))
      "not_available" no_fields none 0 none

abbrev pub not_shown : Envelope
unfolding envelope
not_shown = envelope (object no_fields) "not_available" no_fields none 0 none

-- `employee or call.get("employee_id")`
unfoldable pub effective_employee : Option String → Row → Json
unfolding get
effective_employee (some id) call = text id
effective_employee none call = get "employee_id" call

module _ (host : Host) where
  -- `str(row["id"])` of a row that may be missing
  unfoldable pub required_id : Option Row → Result (Option String)
  unfolding has
  required_id none = ok none
  required_id (some row) =
      if has "id" row then ok (some (id_of host row)) else raised (key_error "id")

  -- the department of the call itself
  unfoldable pub call_department : Row → String
  unfolding get dict_or_empty spell_or_empty
  call_department call =
      spell_or_empty host.repr
        (get "id" (dict_or_empty (get "department" (dict_or_empty (get "employee" call)))))

  -- the answer for a call and its transcript
  unfoldable pub transcript_envelope :
      Option Row → Option String → Row → Row → TranscriptArgs → Envelope
  unfolding transcript_data effective_employee envelope department_scope merge get
  transcript_envelope department employee call payload args =
      let handed = transcript_data host call payload args in
      envelope (object handed.fields) (transcript_status handed)
        (merge (department_scope host.repr department) (
          field "employee_id" (effective_employee employee call) (
            field "call_id" (text args.call_id)
              (field "transcript_format" (text args.transcript_format) no_fields))))
        none 0 none

  module _ (settings : Settings) (session_id : ℕ) where
    -- the department of the scope, or else the one that the call is shown under
    unfoldable pub shown_under : Option Row → Row → Call (Option Row)
    unfolding call_department
    shown_under (some department) call = pure (some department)
    shown_under none call = do
      rows ← departments host session_id
      pure (find_first (λ row. str_eq (id_of host row) (call_department call)) rows)

    -- what OKK says of a transcript
    unfoldable pub transcript_answer :
        TranscriptArgs → Option Row → Option String → Row → Result Json → Call Envelope
    unfolding transcript_envelope as_dict is_not_available
    transcript_answer args department employee call (raised e) =
        if is_not_available e then pure not_shown else raise e
    transcript_answer args department employee call (ok payload) = do
      p ← lift (as_dict payload)
      pure (transcript_envelope department employee call p args)

    -- `_call_transcript_payload`, for a call that is shown
    unfoldable pub shown_transcript :
        TranscriptArgs → Option Row → Option String → Option Row → Call Envelope
    unfolding shown_under transcript_answer
    shown_transcript args department employee none = pure not_shown
    shown_transcript args department employee (some call) = do
      under ← shown_under department call
      settle
          (get_json host session_id (String.◌++◌ "/calls/" (String.◌++◌ args.call_id "/transcript"))
            (field "format" (text args.transcript_format) no_fields))
          (transcript_answer args under employee call)

    -- what OKK says of the call
    unfoldable pub call_answer :
        TranscriptArgs → Option Row → Option String → Option String → Result Json → Call Envelope
    unfolding shown_transcript as_dict is_not_available
    call_answer args row department employee (raised e) =
        if is_not_available e then pure not_shown else raise e
    call_answer args row department employee (ok payload) = do
      raw ← lift (as_dict payload)
      call ← visible_call host settings session_id raw department employee
      shown_transcript args row employee call

    -- `get_call_transcript`
    unfoldable pub get_call_transcript : TranscriptArgs → Call Envelope
    unfolding call_answer required_id
    get_call_transcript args = do
      scope ←
          resolve_entity_scope host settings session_id args.department_id args.department_ref
            args.employee_id
      if scope.2 then pure scope_refused else (do
        department ← lift (required_id scope.0)
        employee ← lift (required_id scope.1)
        settle (get_json host session_id (String.◌++◌ "/calls/" args.call_id) no_fields)
            (call_answer args scope.0 department employee))
