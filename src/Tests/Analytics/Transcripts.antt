-- ===== src/Tests/Analytics/Transcripts.antt =====
-- The transcript tool at concrete inputs.
use okk_analytics_codex_plug.Common.{
  ◌≡◌, List, [], ◌∷◌, none, some, String, ℕ, zero, suc, str_eq, if◌then◌else◌, arith,
}
use okk_analytics_codex_plug.Effect.{Host, response}
use okk_analytics_codex_plug.Json.{text, null, object, Row, no_fields, field}
use okk_analytics_codex_plug.Analytics.Calls.{safe_call}
use okk_analytics_codex_plug.Analytics.Envelope.{Envelope}
use okk_analytics_codex_plug.Analytics.CallTranscript.{transcript_envelope}
use okk_analytics_codex_plug.Tests.Setup.{host, accepted}
use okk_analytics_codex_plug.Tests.Analytics.{department, call}
use okk_analytics_codex_plug.Analytics.Transcripts.{read_segments, read_text}
use okk_analytics_codex_plug.Analytics.Transcripts.Whole.{read_segments_whole, read_text_whole}
use okk_analytics_codex_plug.Analytics.Transcripts.Handed.{TranscriptArgs}

abbrev segment : String → Row
segment s = field "speaker" (text "agent") (field "text" (text s) no_fields)

abbrev segments : List Row
segments = segment "good morning" ∷ (segment "hello" ∷ (segment "goodbye" ∷ []))

-- pieces of at most two segments and ten characters
read_segments_whole_example : read_segments host segments 2 10 4 0 ≡ segments
read_segments_whole_example = read_segments_whole host 10 2 segments 4 (omega arith) (omega arith)

read_text_whole_example : read_text "good morning" 5 13 0 ≡ "good morning"
read_text_whole_example = read_text_whole 5 "good morning" 13 (omega arith) (omega arith)

-- OKK shows the call, and then its transcript.
abbrev pub told : Row
told = field "transcript" (text "good morning") no_fields

abbrev body_of_read : ℕ → String
body_of_read zero = "call"
body_of_read (suc n) = "transcript"

abbrev pub okk_with : Row → Host
okk_with shown_call = record host {
  answer = λ n. response (record accepted { body = body_of_read n });
  loads = λ s. if str_eq s "call" then object shown_call else object told;
}

abbrev okk : Host
okk = okk_with call

-- the first five characters of the transcript
abbrev pub args : TranscriptArgs
args = record {
  call_id = "c1";
  transcript_format = "diarized";
  max_chars = 5;
  max_segments = 500;
  start_char = 0;
  start_segment = 0;
  department_id = null;
  department_ref = null;
  employee_id = null;
}

abbrev shown : Envelope
unfolding transcript_envelope safe_call
shown = transcript_envelope okk (some department) none (safe_call okk call) told args
