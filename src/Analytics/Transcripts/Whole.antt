-- ===== src/Analytics/Transcripts/Whole.antt =====
-- A caller that follows the pieces of a transcript reads all of it (`get_call_transcript` of
-- server/okk_mcp/backend_client.py).
use okk_analytics_codex_plug.Common.{
  ℕ, zero, suc, ◌+◌, ◌≤◌, ◌<◌, ◌≡◌, refl, sym, ap, ◌∙◌, String, Bool, true, false, ◌&&◌, Bool-cases,
  inl, inr, List, [], ◌∷◌, ◌++◌, ltb, length, take, drop, chars, arith, ltb→lt,
}
use Prim.Native.String
use Prim.Native.String.append
use okk_analytics_codex_plug.Json.{Row}
use okk_analytics_codex_plug.Effect.{Host}
use okk_analytics_codex_plug.ClientMetadata.Slices.{slice}
use okk_analytics_codex_plug.Analytics.Transcripts.{
  drop_chars, segment_size, fill_chunk, segment_chunk, segment_piece, text_piece, read_segments,
  read_text,
}

drop_none : (n : ℕ) → drop {A = Row} n [] ≡ []
drop_none zero = refl
drop_none (suc n) = refl

drop-drop : (a b : ℕ) (rows : List Row) → drop (a + b) rows ≡ drop b (drop a rows)
drop-drop zero b rows = ap (λ n. drop n rows) (omega arith)
drop-drop (suc a) b [] = drop_none (suc a + b) ∙ sym (drop_none b)
drop-drop (suc a) b (row ∷ rows) =
    ap (λ n. drop n (row ∷ rows)) {x = suc a + b} {y = suc (a + b)} (omega arith)
    ∙ drop-drop a b rows

drop_all : (n : ℕ) (rows : List Row) → length rows ≤ n → drop n rows ≡ []
drop_all zero [] h = refl
drop_all (suc n) [] h = refl
drop_all zero (row ∷ rows) h = absurd (omega (arith, h))
drop_all (suc n) (row ∷ rows) h = drop_all n rows (omega (arith, h))

not_below : (a b : ℕ) → ltb a b ≡ false → b ≤ a
not_below a b h = ground arith

enough_left :
    (start piece total fuel : ℕ)
    → (start < total → 1 ≤ piece)
    → start + piece < total
    → total < start + suc fuel
    → total < start + piece + fuel
enough_left start piece total fuel moves more enough =
    omega (arith, moves (omega (arith, more)), more, enough)

module _ (host : Host) (max_chars : ℕ) where
  chunk_prefix :
      (n used : ℕ) (taken : Bool) (rows : List Row)
      → fill_chunk host max_chars taken used (take n rows)
          ++ drop (length (fill_chunk host max_chars taken used (take n rows))) rows
        ≡ rows
  unfolding fill_chunk
  chunk_prefix zero used taken rows = refl
  chunk_prefix (suc n) used taken [] = refl
  chunk_prefix (suc n) used taken (row ∷ rows) =
      elim (Bool-cases (taken && ltb max_chars (used + segment_size host row))) [
        | inl full ↦ rw full refl
        | inr fits ↦
            rw fits (ap (λ rs. row ∷ rs) (chunk_prefix n (used + segment_size host row) true rows))
      ]

  chunk_moves :
      (n start : ℕ) (source : List Row)
      → 1 ≤ n
      → start < length source
      → 1 ≤ length (fill_chunk host max_chars false 0 (take n (drop start source)))
  unfolding fill_chunk
  chunk_moves zero start source h k = absurd (omega (arith, h))
  chunk_moves (suc n) start [] h k = absurd (omega (arith, k))
  chunk_moves (suc n) zero (row ∷ source) h k = omega arith
  chunk_moves (suc n) (suc start) (row ∷ source) h k =
      chunk_moves (suc n) start source h (omega (arith, k))

  -- the end of the transcript
  last_piece :
      (next : ℕ) (source : List Row) (piece rest : List Row)
      → length source ≤ next
      → piece ++ drop next source ≡ rest
      → piece ++ [] ≡ rest
  last_piece next source piece rest h e = rw (drop_all next source h) at e

  read_all :
      (max_segments : ℕ) (source : List Row) (fuel start : ℕ)
      → 1 ≤ max_segments
      → length source < start + fuel
      → read_segments host source max_segments max_chars fuel start ≡ drop start source
  unfolding read_segments segment_piece segment_chunk
  read_all max_segments source zero start one enough =
      sym (drop_all start source (omega (arith, enough)))
  read_all max_segments source (suc fuel) start one enough =
      let piece : List Row = segment_chunk host source start max_segments max_chars in
      let next : ℕ = start + length piece in
      let whole : piece ++ drop next source ≡ drop start source =
        ap (λ rest. piece ++ rest) (drop-drop start (length piece) source)
        ∙ chunk_prefix max_segments 0 false (drop start source) in
      elim (Bool-cases (ltb next (length source))) [
        | inl more ↦ rw more (
            ap (λ rest. piece ++ rest)
              (read_all max_segments source fuel next one (
                enough_left start (length piece) (length source) fuel
                  (λ before. chunk_moves max_segments start source one before)
                  (ltb→lt next (length source) more) enough))
            ∙ whole)
        | inr end ↦ rw end (
            last_piece next source piece (drop start source) (not_below next (length source) end)
              whole)
      ]

  -- A caller that repeats `get_call_transcript` for segments, each time from the start that the last
  -- answer named, has read every segment, in order and each one once, after at most as many answers as
  -- there are segments and one more: every answer but the last holds at least one.
  pub read_segments_whole :
      (max_segments : ℕ) (source : List Row) (fuel : ℕ)
      → 1 ≤ max_segments
      → length source < fuel
      → read_segments host source max_segments max_chars fuel 0 ≡ source
  read_segments_whole max_segments source fuel one enough =
      read_all max_segments source fuel 0 one (omega (arith, enough))

drop_chars_none : (n : ℕ) → drop_chars n "" ≡ ""
unfolding drop_chars
drop_chars_none zero = refl
drop_chars_none (suc n) = refl

drop_chars-drop_chars :
    (a b : ℕ) (s : String) → drop_chars (a + b) s ≡ drop_chars b (drop_chars a s)
unfolding drop_chars
drop_chars-drop_chars zero b s = ap (λ n. drop_chars n s) (omega arith)
drop_chars-drop_chars (suc a) b String.[] = drop_chars_none (suc a + b) ∙ sym (drop_chars_none b)
drop_chars-drop_chars (suc a) b (String.◌∷◌ c s) =
    ap (λ n. drop_chars n (String.◌∷◌ c s)) {x = suc a + b} {y = suc (a + b)} (omega arith)
    ∙ drop_chars-drop_chars a b s

drop_all_chars : (n : ℕ) (s : String) → chars s ≤ n → drop_chars n s ≡ ""
unfolding drop_chars
drop_all_chars zero String.[] h = refl
drop_all_chars (suc n) String.[] h = refl
drop_all_chars zero (String.◌∷◌ c s) h = absurd (omega (arith, h))
drop_all_chars (suc n) (String.◌∷◌ c s) h = drop_all_chars n s (omega (arith, h))

slice_prefix : (n : ℕ) (s : String) → String.◌++◌ (slice n s) (drop_chars (chars (slice n s)) s) ≡ s
unfolding slice drop_chars
slice_prefix zero s = append.nil s
slice_prefix (suc n) String.[] = append.nil ""
slice_prefix (suc n) (String.◌∷◌ c s) =
    append.cons c (slice n s) (drop_chars (chars (slice n s)) s)
    ∙ ap (λ t. String.◌∷◌ c t) (slice_prefix n s)

slice_moves :
    (n start : ℕ) (s : String) → 1 ≤ n → start < chars s → 1 ≤ chars (slice n (drop_chars start s))
unfolding slice drop_chars
slice_moves zero start s h k = absurd (omega (arith, h))
slice_moves (suc n) start String.[] h k = absurd (omega (arith, k))
slice_moves (suc n) zero (String.◌∷◌ c s) h k = omega arith
slice_moves (suc n) (suc start) (String.◌∷◌ c s) h k =
    slice_moves (suc n) start s h (omega (arith, k))

last_text :
    (next : ℕ) (source piece rest : String)
    → chars source ≤ next
    → String.◌++◌ piece (drop_chars next source) ≡ rest
    → String.◌++◌ piece "" ≡ rest
last_text next source piece rest h e = rw (drop_all_chars next source h) at e

read_all_text :
    (max_chars : ℕ) (source : String) (fuel start : ℕ)
    → 1 ≤ max_chars
    → chars source < start + fuel
    → read_text source max_chars fuel start ≡ drop_chars start source
unfolding read_text text_piece
read_all_text max_chars source zero start one enough =
    sym (drop_all_chars start source (omega (arith, enough)))
read_all_text max_chars source (suc fuel) start one enough =
    let piece : String = slice max_chars (drop_chars start source) in
    let next : ℕ = start + chars piece in
    let whole : String.◌++◌ piece (drop_chars next source) ≡ drop_chars start source =
      ap (λ rest. String.◌++◌ piece rest) (drop_chars-drop_chars start (chars piece) source)
      ∙ slice_prefix max_chars (drop_chars start source) in
    elim (Bool-cases (ltb next (chars source))) [
      | inl more ↦ rw more (
          ap (λ rest. String.◌++◌ piece rest)
            (read_all_text max_chars source fuel next one (
              enough_left start (chars piece) (chars source) fuel
                (λ before. slice_moves max_chars start source one before)
                (ltb→lt next (chars source) more) enough))
          ∙ whole)
      | inr end ↦ rw end (
          last_text next source piece (drop_chars start source) (not_below next (chars source) end)
            whole)
    ]

-- The same for the text of a call in pieces of at most `max_chars` characters: the pieces, one after the
-- other, are the text.
pub read_text_whole :
    (max_chars : ℕ) (source : String) (fuel : ℕ)
    → 1 ≤ max_chars
    → chars source < fuel
    → read_text source max_chars fuel 0 ≡ source
unfolding drop_chars
read_text_whole max_chars source fuel one enough =
    read_all_text max_chars source fuel 0 one (omega (arith, enough))
