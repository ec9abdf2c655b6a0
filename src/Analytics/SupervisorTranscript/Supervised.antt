-- ===== src/Analytics/SupervisorTranscript/Supervised.antt =====
-- `get_supervisor_call_transcript` of server/okk_mcp/backend_client.py hands out transcripts of supervisors' calls only.
use okk_analytics_codex_plug.Common.{ℕ, ◌≡◌, ◌⊎◌, String, Option, none, some, List}
use mathlib.Core.List.{Memᴰ}
use okk_analytics_codex_plug.Errors.{Result, ok}
use okk_analytics_codex_plug.Json.{Json, object, text, Row, field, get, dict_or_empty}
use okk_analytics_codex_plug.Effect.{Host}
use okk_analytics_codex_plug.Oauth.Types.{Settings}
use okk_analytics_codex_plug.Platform.Context.{AccountContext}
use okk_analytics_codex_plug.Analytics.Adapter.{Call, AdapterState}
use okk_analytics_codex_plug.Analytics.Journal.{id_of}
use okk_analytics_codex_plug.Analytics.Guarded.{IsScoped}
use okk_analytics_codex_plug.Analytics.Supervisors.{supervisor_catalog, restricted_supervisor}
use okk_analytics_codex_plug.Analytics.Calls.Visible.{visible_call}
use okk_analytics_codex_plug.Analytics.Calls.Shown.{IsVisible}
use okk_analytics_codex_plug.Analytics.Envelope.{Envelope}
use okk_analytics_codex_plug.Analytics.Transcripts.Handed.{
  TranscriptArgs, transcript_data, transcript_status,
}
use okk_analytics_codex_plug.Analytics.CallTranscript.Shown.{read_call, read_transcript}

module _ (host : Host) (settings : Settings) (session_id : ℕ) (supervisor_id : String)
    (args : TranscriptArgs) where
  -- a supervisor of the catalog that the account sees
  pub record InCatalog (s : AdapterState) (supervisor : Row) : Type 0 where
    pub rows : List Row
    pub read : (supervisor_catalog host session_id s).0 ≡ ok rows
    pub listed : Memᴰ supervisor rows
    pub own_id : id_of host supervisor ≡ supervisor_id

  abbrev pub after_lookup : AdapterState → AdapterState
  after_lookup s = (restricted_supervisor host session_id supervisor_id s).1

  abbrev pub call_asked : AdapterState → Result Json × AdapterState
  call_asked s = read_call host settings session_id args (after_lookup s)

  -- The transcript of a call of a supervisor: every part is the outcome of the step before it.
  pub record Supervises (c : AccountContext) (s : AdapterState) (e : Envelope) : Type 0 where
    pub supervisor : Row
    pub in_catalog : InCatalog s supervisor
    -- OKK's answer for the call
    pub row : Row
    pub call_read : (call_asked s).0 ≡ ok (object row)
    -- the call is one of that supervisor, and of the section of supervisors
    pub call : Row
    pub visible :
        IsVisible host c settings session_id
          (call_asked s).1
          row
          none
          (some (id_of host supervisor))
          call
    pub section : get "section" (dict_or_empty (get "employee" call)) ≡ text "supervisors"
    -- OKK's answer for its transcript, read only then
    pub payload : Row
    pub transcript_read :
        (read_transcript host settings session_id args
          (visible_call host settings session_id row none
            (some (id_of host supervisor))
            (call_asked s).1).1).0
        ≡ ok (object payload)
    -- the answer holds that supervisor, that call and that transcript
    pub content :
        e.content
        ≡ object
            (field "supervisor" (object supervisor) (transcript_data host call payload args).fields)
    pub status : e.status ≡ transcript_status (transcript_data host call payload args)

  abbrev pub Overseen : AccountContext → AdapterState → Envelope → Type 0
  Overseen c s e = (e.status ≡ "not_available") ⊎ Supervises c s e

  module _ (c : AccountContext) (s : AdapterState) (e : Envelope) (supervisor : Row)
      (in_catalog : InCatalog s supervisor) (scoped : IsScoped host c (call_asked s).1) where
    abbrev own_call : Row → Call (Option Row)
    own_call row = visible_call host settings session_id row none (some (id_of host supervisor))

    abbrev after_call : Row → AdapterState
    after_call row = (own_call row (call_asked s).1).1
