-- ===== src/Common/Text.antt =====
-- Python's `str` operations over native texts: `isspace`, `split`, `join`, `strip`, `rstrip`.
use Prim.Native.Char.{Char, code}
use Prim.Native.Nat.{ℕ}
use Prim.Native.String
use Prim.Native.String.{String}
use mathlib.Core.Bool.{Bool, true, false, not, ◌&&◌, ◌||◌}
use mathlib.Core.List.{List, [], ◌∷◌}
use okk_analytics_codex_plug.Common.Tests.{leb, ◌==◌, if◌then◌else◌}

abbrev between : ℕ → ℕ → ℕ → Bool
between lo hi c = leb lo c && leb c hi

-- `str.isspace` of one character, by code point.
unfoldable pub is_space : Char → Bool
is_space ch =
    let c = code ch in
    between 9 13 c
    || between 28 32 c
    || c == 133
    || c == 160
    || c == 5760
    || between 8192 8202 c
    || between 8232 8233 c
    || c == 8239
    || c == 8287
    || c == 12288

-- An empty text is false.
abbrev pub nonempty : String → Bool
nonempty String.[] = false
nonempty (String.◌∷◌ c s) = true

abbrev pub all_chars : (Char → Bool) → String → Bool
all_chars p String.[] = true
all_chars p (String.◌∷◌ c s) = p c && all_chars p s

-- `len(s)`, in characters
abbrev pub chars : String → ℕ
chars String.[] = 0
chars (String.◌∷◌ c s) = Prim.Native.Nat.suc (chars s)

abbrev pub emit : String → List String → List String
emit w ws = if nonempty w then w ∷ ws else ws

-- The word that the text begins with, and the words behind it.
abbrev pub push_char : Bool → Char → String × List String → String × List String
push_char true c (w, ws) = (String.[], emit w ws)
push_char false c (w, ws) = (String.◌∷◌ c w, ws)

unfoldable pub split_front : String → String × List String
split_front String.[] = (String.[], [])
split_front (String.◌∷◌ c s) = push_char (is_space c) c (split_front s)

-- `s.split()`
unfoldable pub split : String → List String
unfolding split_front is_space
split s = let (w, ws) = split_front s in emit w ws

-- `" ".join(words)`
unfoldable pub join : List String → String
join [] = ""
join (w ∷ []) = w
join (w ∷ (v ∷ ws)) = String.◌++◌ w (String.◌++◌ " " (join (v ∷ ws)))

-- The text without the characters of a class at its front, and at its end.
unfoldable pub drop_front : (Char → Bool) → String → String
drop_front p String.[] = ""
drop_front p (String.◌∷◌ c s) = let rest = drop_front p s in if p c then rest else String.◌∷◌ c s

unfoldable pub drop_end : (Char → Bool) → String → String
drop_end p String.[] = ""
drop_end p (String.◌∷◌ c s) =
    let rest = drop_end p s in if p c && not (nonempty rest) then "" else String.◌∷◌ c rest

-- `s.strip()`
unfoldable pub strip : String → String
unfolding drop_front drop_end is_space
strip s = drop_end is_space (drop_front is_space s)

-- `s.rstrip("/")`
unfoldable pub rstrip_slash : String → String
unfolding drop_end
rstrip_slash s = drop_end (λ c. code c == b'/') s

-- `s or default`
abbrev pub text_or : String → String → String
text_or s default = if nonempty s then s else default
