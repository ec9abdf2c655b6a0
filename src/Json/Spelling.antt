-- ===== src/Json/Spelling.antt =====
-- `str(value)`, for the values that server/okk_mcp turns into texts.
use okk_analytics_codex_plug.Common.{
  ℕ, zero, suc, ◌/◌, ◌%◌, String, true, false, if◌then◌else◌, ltb,
}
use Prim.Native.String
use okk_analytics_codex_plug.Json.{Json, null, boolean, number, decimal, text, truthy}

abbrev char_at : ℕ → String → String
char_at n String.[] = ""
char_at zero (String.◌∷◌ c s) = String.◌∷◌ c ""
char_at (suc n) (String.◌∷◌ c s) = char_at n s

abbrev digit : ℕ → String
digit n = char_at n "0123456789"

-- the digits of a number, at most `fuel` of them
unfoldable pub digits : ℕ → ℕ → String
digits zero n = ""
digits (suc fuel) n =
    let front = digits fuel (n / 10) in
    if ltb n 10 then digit n else String.◌++◌ front (digit (n % 10))

unfoldable pub show : ℕ → String
unfolding digits
show n = digits (suc n) n

-- `str(value)`; a list or a dict is printed by `repr`
unfoldable pub spell : (Json → String) → Json → String
unfolding show
spell repr null = "None"
spell repr (boolean true) = "True"
spell repr (boolean false) = "False"
spell repr (number n) = show n
spell repr (decimal s) = s
spell repr (text s) = s
spell repr v = repr v

-- `str(value or "")`
unfoldable pub spell_or_empty : (Json → String) → Json → String
unfolding spell truthy
spell_or_empty repr v = if truthy v then spell repr v else ""
