-- ===== src/Analytics/Texts.antt =====
-- How server/okk_mcp/backend_client.py compares the texts of its filters: department selectors, search
-- terms, phone numbers and the text of calls.
use Prim.Native.Char.{Char, code}
use Prim.Native.String
use okk_analytics_codex_plug.Common.{
  ℕ, String, Bool, true, false, not, ◌&&◌, ◌||◌, List, [], ◌∷◌, ◌++◌, keep, all_chars, ltb, leb,
  ◌==◌, nonempty, chars, is_space, strip, str_eq, starts_with, if◌then◌else◌,
}
use okk_analytics_codex_plug.Errors.{Result, ok, raised, value_error}
use okk_analytics_codex_plug.Json.{Json, text, Row, get}
use okk_analytics_codex_plug.Json.Spelling.{spell_or_empty}
use okk_analytics_codex_plug.Effect.{Host}

-- `PHONE_WHOLE_NUMBER_MIN_DIGITS` and `PHONE_ENDING_MIN_DIGITS`
abbrev pub phone_whole_number_min_digits : ℕ
phone_whole_number_min_digits = 10

abbrev pub phone_ending_min_digits : ℕ
phone_ending_min_digits = 4

-- `s[1:]`
unfoldable pub drop_first : String → String
drop_first String.[] = ""
drop_first (String.◌∷◌ c s) = s

-- `s.endswith(t)`
unfoldable pub ends_with : String → String → Bool
ends_with String.[] t = not (nonempty t)
ends_with (String.◌∷◌ c s) t = str_eq (String.◌∷◌ c s) t || ends_with s t

-- the characters of a text that pass a test
unfoldable pub filter_chars : (Char → Bool) → String → String
filter_chars p String.[] = ""
filter_chars p (String.◌∷◌ c s) =
    let rest = filter_chars p s in if p c then String.◌∷◌ c rest else rest

abbrev emit : String → List String → List String
emit w ws = if nonempty w then w ∷ ws else ws

abbrev push_char : Bool → Char → String × List String → String × List String
push_char true c (w, ws) = (String.◌∷◌ c w, ws)
push_char false c (w, ws) = (String.[], emit w ws)

unfoldable pub runs_front : (Char → Bool) → String → String × List String
runs_front p String.[] = (String.[], [])
runs_front p (String.◌∷◌ c s) = push_char (p c) c (runs_front p s)

-- `re.findall` of one or more characters of a class
unfoldable pub runs : (Char → Bool) → String → List String
unfolding runs_front
runs p s = let (w, ws) = runs_front p s in emit w ws

-- a word that is not empty, by its first character
unfoldable pub first_char : String → String
first_char String.[] = ""
first_char (String.◌∷◌ c s) = String.◌∷◌ c ""

-- the first letters of some words
unfoldable pub initials : List String → String
unfolding first_char
initials [] = ""
initials (w ∷ ws) = String.◌++◌ (first_char w) (initials ws)

module _ (host : Host) where
  -- `\w` of a Unicode pattern
  abbrev is_word : Char → Bool
  is_word c = host.is_alnum c || code c == b'_'

  -- `_selector_key` of a text
  unfoldable pub selector_key : String → String
  unfolding filter_chars strip
  selector_key s = filter_chars host.is_alnum (strip (host.fold_case s))

  abbrev pub has_digit : String → Bool
  has_digit s = not (all_chars (λ c. not (host.is_digit c)) s)

  abbrev pub initials_key : List String → List String
  initials_key [] = []
  initials_key (w ∷ []) = []
  initials_key words = selector_key (initials words) ∷ []

  abbrev pub first_key : List String → List String
  first_key [] = []
  first_key (w ∷ ws) = if host.is_upper w || has_digit w then selector_key w ∷ [] else []

  -- `_department_selector_keys`, as a list
  unfoldable pub department_selector_keys : Row → List String
  unfolding selector_key runs initials get strip spell_or_empty
  department_selector_keys row =
      let name = strip (spell_or_empty host.repr (get "name" row)) in
      let code = strip (spell_or_empty host.repr (get "code" row)) in
      let words = runs is_word name in
      keep nonempty
        (selector_key name ∷ selector_key code ∷ (initials_key words ++ first_key words))

  -- `_normalized_search_text` of a text
  abbrev pub normalized_search_text : String → String
  normalized_search_text s = host.fold_case s

  -- `_search_terms`
  unfoldable pub search_terms : String → List String
  unfolding runs
  search_terms q = runs (λ c. is_word c || code c == b'-') (normalized_search_text q)

  abbrev spoken_char : Char → Bool
  spoken_char c = code c == 10 || code c == 9 || not (host.is_hidden c)

  -- `_spoken`
  unfoldable pub spoken : Json → Json
  unfolding filter_chars
  spoken (text s) = text (filter_chars spoken_char s)
  spoken v = v

  -- `[+()\-\s\d]`
  unfoldable pub is_phone_char : Char → Bool
  unfolding is_space
  is_phone_char c =
      code c == b'+'
      || code c == b'('
      || code c == b')'
      || code c == b'-'
      || is_space c
      || host.is_decimal c

  -- the digits as OKK searches them: eleven of a Russian number begin with 7
  unfoldable pub with_country : String → String
  with_country digits =
      if chars digits == 11 && starts_with digits "8"
      then String.◌++◌ "7" (drop_first digits)
      else if chars digits == 10
      then String.◌++◌ "7" digits
      else digits

  -- `_normalized_phone_filter`
  unfoldable pub normalized_phone_filter : String → Result String
  unfolding is_phone_char with_country filter_chars
  normalized_phone_filter value =
      if ltb 40 (chars value) || not (nonempty value && all_chars is_phone_char value)
      then raised (value_error "Invalid phone number")
      else let digits = with_country (filter_chars host.is_digit value) in
        if leb phone_ending_min_digits (chars digits) && leb (chars digits) 20
        then ok digits
        else raised (value_error "Invalid phone number")

  -- `_phone_matches`
  unfoldable pub phone_matches : Json → String → Bool
  phone_matches (text phone) searched =
      if leb phone_whole_number_min_digits (chars searched)
      then str_eq phone searched
      else ends_with phone searched
  phone_matches _ searched = false
