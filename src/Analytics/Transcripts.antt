-- ===== src/Analytics/Transcripts.antt =====
-- How a transcript is handed out piece by piece: `_segment_chunk`, `_safe_segments` and the two branches of
-- `get_call_transcript` in server/okk_mcp/backend_client.py.
pub mod Whole
pub mod Handed
use okk_analytics_codex_plug.Common.{
  ℕ, zero, suc, ◌+◌, String, Bool, true, false, ◌&&◌, ◌||◌, Option, none, some, List, [], ◌∷◌, ◌++◌,
  ltb, length, take, drop, chars, nonempty, strip, if◌then◌else◌,
}
use Prim.Native.String
use okk_analytics_codex_plug.Json.{
  Json, null, number, text, array, object, Row, no_fields, field, get, pick, dict_items, row_items,
}
use okk_analytics_codex_plug.Json.Spelling.{spell_or_empty}
use okk_analytics_codex_plug.Effect.{Host}
use okk_analytics_codex_plug.ClientMetadata.Slices.{slice}

-- `s[n:]`
unfoldable pub drop_chars : ℕ → String → String
drop_chars zero s = s
drop_chars (suc n) String.[] = ""
drop_chars (suc n) (String.◌∷◌ c s) = drop_chars n s

-- `_safe_segments`
unfoldable pub safe_segments : List Row → List Row
unfolding pick
safe_segments [] = []
safe_segments (row ∷ rows) =
    pick ("speaker" ∷ "text" ∷ "start" ∷ "end" ∷ []) row ∷ safe_segments rows

-- where the next piece starts; nothing at the end
abbrev pub next_start : ℕ → ℕ → Option ℕ
next_start next total = if ltb next total then some next else none

-- a piece of a transcript, where the next one starts, and whether it is not the whole
pub record Piece {ℓ} (A : Type ℓ) : Type ℓ where
  pub returned : A
  pub next : Option ℕ
  pub truncated : Bool

abbrev pub followed : Option ℕ → (ℕ → List Row) → List Row
followed none later = []
followed (some start) later = later start

abbrev pub text_followed : Option ℕ → (ℕ → String) → String
text_followed none later = ""
text_followed (some start) later = later start

unfoldable pub text_piece : String → ℕ → ℕ → Piece String
unfolding slice drop_chars
text_piece source start max_chars =
    let returned = slice max_chars (drop_chars start source) in
    let next = start + chars returned in
    record {
      returned = returned;
      next = next_start next (chars source);
      truncated = ltb 0 start || ltb next (chars source);
    }

-- a caller that repeats the tool with the start that it was given, until none is given
unfoldable pub read_text : String → ℕ → ℕ → ℕ → String
unfolding text_piece
read_text source max_chars zero start = ""
read_text source max_chars (suc fuel) start =
    let piece = text_piece source start max_chars in
    String.◌++◌ piece.returned (text_followed piece.next (read_text source max_chars fuel))

module _ (host : Host) where
  unfoldable pub segment_size : Row → ℕ
  unfolding get spell_or_empty
  segment_size segment = chars (spell_or_empty host.repr (get "text" segment))

  -- the loop of `_segment_chunk`, after a segment was taken or before
  unfoldable pub fill_chunk : ℕ → Bool → ℕ → List Row → List Row
  unfolding segment_size
  fill_chunk max_chars taken used [] = []
  fill_chunk max_chars taken used (segment ∷ rest) =
      let size = used + segment_size segment in
      let more = fill_chunk max_chars true size rest in
      if taken && ltb max_chars size then [] else segment ∷ more

  -- `_segment_chunk`
  unfoldable pub segment_chunk : List Row → ℕ → ℕ → ℕ → List Row
  unfolding fill_chunk
  segment_chunk source start max_segments max_chars =
      fill_chunk max_chars false 0 (take max_segments (drop start source))

  unfoldable pub segment_piece : List Row → ℕ → ℕ → ℕ → Piece (List Row)
  unfolding segment_chunk
  segment_piece source start max_segments max_chars =
      let returned = segment_chunk source start max_segments max_chars in
      let next = start + length returned in
      record {
        returned = returned;
        next = next_start next (length source);
        truncated = ltb 0 start || ltb next (length source);
      }

  -- A caller that repeats the tool with the start that it was given, until none is given.
  unfoldable pub read_segments : List Row → ℕ → ℕ → ℕ → ℕ → List Row
  unfolding segment_piece
  read_segments source max_segments max_chars zero start = []
  read_segments source max_segments max_chars (suc fuel) start =
      let piece = segment_piece source start max_segments max_chars in
      piece.returned ++ followed piece.next (read_segments source max_segments max_chars fuel)
