-- ===== src/ClientMetadata/Slices.antt =====
-- `s[:n]` and `dict.fromkeys` of Python.
use okk_analytics_codex_plug.Common.{ℕ, zero, suc, String, List, [], ◌∷◌, not, keep, str_eq}

unfoldable pub slice : ℕ → String → String
slice zero s = ""
slice (suc n) String.[] = ""
slice (suc n) (String.◌∷◌ c s) = String.◌∷◌ c (slice n s)

-- each text once, at its first place
unfoldable pub unique : List String → List String
unique [] = []
unique (x ∷ xs) = let rest = unique xs in x ∷ keep (λ y. not (str_eq y x)) rest
