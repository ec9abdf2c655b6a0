-- ===== src/Analytics/Transcripts/Handed.antt =====
-- What `get_call_transcript` of server/okk_mcp/backend_client.py hands out of a transcript, with the
-- texts that `_call_transcript_payload` cleaned.
use okk_analytics_codex_plug.Common.{
  ℕ, String, Bool, Option, none, some, List, [], ◌∷◌, length, chars, nonempty, strip, str_eq,
  is_some, if◌then◌else◌,
}
use okk_analytics_codex_plug.Json.{
  Json, null, boolean, number, text, array, object, Row, no_fields, field, get, has, set, items,
  from_list, dict_items, row_items,
}
use okk_analytics_codex_plug.Effect.{Host}
use okk_analytics_codex_plug.Analytics.Texts.{spoken}
use okk_analytics_codex_plug.Analytics.Transcripts.{safe_segments, segment_piece, text_piece}

-- the arguments of the tool
pub record TranscriptArgs : Type 0 where
  pub call_id : String
  pub transcript_format : String
  pub max_chars : ℕ
  pub max_segments : ℕ
  pub start_char : ℕ
  pub start_segment : ℕ
  pub department_id : Json
  pub department_ref : Json
  pub employee_id : Json

-- what is handed out of a transcript: its fields, whether it is cut, and whether there is one
pub record Handed : Type 0 where
  pub fields : Row
  pub truncated : Bool
  pub available : Bool

abbrev pub opt_number : Option ℕ → Json
opt_number none = null
opt_number (some n) = number n

abbrev pub text_or_none : Json → String
text_or_none (text s) = s
text_or_none _ = ""

-- `"partial" if truncated else ("ok" if available else "no_data")`
abbrev pub transcript_status : Handed → String
transcript_status h = if h.truncated then "partial" else if h.available then "ok" else "no_data"

module _ (host : Host) where
  unfoldable pub clean_segments : List Json → List Json
  unfolding set get spoken
  clean_segments [] = []
  clean_segments (object row ∷ rest) =
      object (set "text" (spoken host (get "text" row)) row) ∷ clean_segments rest
  clean_segments (v ∷ rest) = v ∷ clean_segments rest

  abbrev pub cleaned_segments : Json → Row → Row
  unfolding clean_segments items from_list set
  cleaned_segments (array vs) row =
      set "segments" (array (from_list (clean_segments (items vs)))) row
  cleaned_segments _ row = row

  -- the texts of a payload without hidden characters
  unfoldable pub cleaned_payload : Row → Row
  unfolding clean_segments items from_list set has get spoken
  cleaned_payload row =
      let with_text =
        if has "transcript" row
        then set "transcript" (spoken host (get "transcript" row)) row
        else row in
      cleaned_segments (get "segments" with_text) with_text

  unfoldable pub handed_segments : Row → TranscriptArgs → Handed
  unfolding segment_piece safe_segments dict_items get row_items
  handed_segments payload args =
      let source = safe_segments (dict_items (get "segments" payload)) in
      let piece = segment_piece host source args.start_segment args.max_segments args.max_chars in
      record {
        fields = field "segments" (array (row_items piece.returned)) (
            field "total_segments" (number (length source)) (
              field "returned_segments" (number (length piece.returned)) (
                field "start_segment" (number args.start_segment)
                  (field "next_start_segment" (opt_number piece.next) no_fields))));
        truncated = piece.truncated;
        available = is_some (first source);
      }
    where
      first : List Row → Option Row
      first [] = none
      first (row ∷ rows) = some row

  unfoldable pub handed_text : Row → TranscriptArgs → Handed
  unfolding text_piece get strip
  handed_text payload args =
      let source = text_or_none (get "transcript" payload) in
      let piece = text_piece source args.start_char args.max_chars in
      record {
        fields = field "transcript" (text piece.returned) (
            field "total_chars" (number (chars source)) (
              field "returned_chars" (number (chars piece.returned)) (
                field "start_char" (number args.start_char) (
                  field "next_start_char" (opt_number piece.next)
                    (field "source_sha256" (text (host.sha256_hex source)) no_fields)))));
        truncated = piece.truncated;
        available = nonempty (strip source);
      }

  -- the data of the answer
  unfoldable pub transcript_data : Row → Row → TranscriptArgs → Handed
  unfolding handed_segments handed_text cleaned_payload
  transcript_data call payload args =
      let cleaned = cleaned_payload payload in
      let handed =
        if str_eq args.transcript_format "segments"
        then handed_segments cleaned args
        else handed_text cleaned args in
      record {
        fields = field "call" (object call) (
            field "transcript_format" (text args.transcript_format) (
              field "transcript_available" (boolean handed.available)
                (field "truncated" (boolean handed.truncated) handed.fields)));
        truncated = handed.truncated;
        available = handed.available;
      }
