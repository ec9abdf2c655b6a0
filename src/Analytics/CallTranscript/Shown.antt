-- ===== src/Analytics/CallTranscript/Shown.antt =====
-- `get_call_transcript` of server/okk_mcp/backend_client.py hands out transcripts of visible calls only.
use okk_analytics_codex_plug.Common.{
  ℕ, ◌≡◌, refl, ap, subst, ◌⊎◌, inl, inr, String, Bool, false, Option, if◌then◌else◌,
}
use Prim.Native.String
use okk_analytics_codex_plug.Errors.{Exc, ok, is_not_available}
use okk_analytics_codex_plug.Json.{
  Json, null, boolean, number, decimal, array, object, text, Row, no_fields, field, as_dict,
}
use okk_analytics_codex_plug.Effect.{Host, pure, raise}
use okk_analytics_codex_plug.Effect.Outcomes.{ok_injective, not_ok, branches}
use okk_analytics_codex_plug.Oauth.Types.{Settings}
use okk_analytics_codex_plug.Platform.Context.{AccountContext}
use okk_analytics_codex_plug.Analytics.Adapter.{Call, AdapterState, get_json}
use okk_analytics_codex_plug.Analytics.Directory.{resolve_entity_scope}
use okk_analytics_codex_plug.Analytics.Calls.Visible.{visible_call}
use okk_analytics_codex_plug.Analytics.Calls.Shown.{IsVisible}
use okk_analytics_codex_plug.Analytics.Envelope.{Envelope, envelope}
use okk_analytics_codex_plug.Analytics.Transcripts.Handed.{
  TranscriptArgs, transcript_data, transcript_status,
}
use okk_analytics_codex_plug.Analytics.CallTranscript.{not_shown, required_id, shown_under}

-- a value that the code reads as a dict is one
pub dict_read : (v : Json) (row : Row) → as_dict v ≡ ok row → v ≡ object row
unfolding as_dict
dict_read (object given) row h = ap object (ok_injective h)
dict_read null row h = cc
dict_read (boolean b) row h = cc
dict_read (number n) row h = cc
dict_read (decimal s) row h = cc
dict_read (text s) row h = cc
dict_read (array vs) row h = cc

module _ (host : Host) (settings : Settings) (session_id : ℕ) (args : TranscriptArgs) where
  abbrev pub asked_scope : Call (Option Row × Option Row × Bool)
  asked_scope =
      resolve_entity_scope host settings session_id args.department_id args.department_ref
        args.employee_id

  abbrev pub read_call : Call Json
  read_call = get_json host session_id (String.◌++◌ "/calls/" args.call_id) no_fields

  abbrev pub read_transcript : Call Json
  read_transcript =
      get_json host session_id (String.◌++◌ "/calls/" (String.◌++◌ args.call_id "/transcript"))
        (field "format" (text args.transcript_format) no_fields)

  -- The transcript of a call, in the scope that was asked for: every part is the outcome of the step
  -- before it.
  pub record HandsOut (c : AccountContext) (s : AdapterState) (e : Envelope) : Type 0 where
    pub scope : Option Row × Option Row × Bool
    pub in_scope : (asked_scope s).0 ≡ ok scope
    pub valid_scope : scope.2 ≡ false
    pub department : Option String
    pub employee : Option String
    pub own_department : required_id host scope.0 ≡ ok department
    pub own_employee : required_id host scope.1 ≡ ok employee
    -- OKK's answer for the call
    pub row : Row
    pub call_read : (read_call (asked_scope s).1).0 ≡ ok (object row)
    -- the call is shown, after the checks of the account's access
    pub call : Row
    pub visible :
        IsVisible host c settings session_id
          (read_call (asked_scope s).1).1
          row
          department
          employee
          call
    -- OKK's answer for its transcript, read only then
    pub after : AdapterState
    pub checked_first :
        after
        ≡ (shown_under host settings session_id scope.0 call
            (visible_call host settings session_id row department employee
              (read_call (asked_scope s).1).1).1).1
    pub payload : Row
    pub transcript_read : (read_transcript after).0 ≡ ok (object payload)
    -- the answer holds that call and that transcript
    pub content : e.content ≡ object (transcript_data host call payload args).fields
    pub status : e.status ≡ transcript_status (transcript_data host call payload args)

  abbrev pub Answered : AccountContext → AdapterState → Envelope → Type 0
  Answered c s e = (e.status ≡ "not_available") ⊎ HandsOut c s e

  -- an exception that says not available, or that goes on
  pub withheld :
      (x : Exc) (s : AdapterState) (e : Envelope)
      → ((if is_not_available x then pure not_shown else raise x) s).0 ≡ ok e
      → e.status ≡ "not_available"
  unfolding envelope
  withheld x s e h = elim (branches (is_not_available x) (pure not_shown) (raise x) s e h) [
    | inl (k, shown) ↦ subst (λ o. o.status ≡ "not_available") (ok_injective shown) refl
    | inr (k, gone) ↦ absurd (not_ok gone)
  ]
