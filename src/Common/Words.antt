-- ===== src/Common/Words.antt =====
-- `split` undoes `join` on words, and returns words only.
use Prim.Native.Char.{Char}
use Prim.Native.String
use Prim.Native.String.append
use Prim.Native.String.{String}
use mathlib.Core.Path.{◌≡◌, refl}
use mathlib.Core.Bool.{Bool, true, false, not}
use mathlib.Core.List.{List, [], ◌∷◌}
use mathlib.Core.Logic.{inl, inr}
use native.Mathlib.Omega.{arith}
use text.Mathlib.TextLemmas.{append-nil}
use okk_analytics_codex_plug.Common.Lists.{All}
use okk_analytics_codex_plug.Common.Tests.{Bool-cases}
use okk_analytics_codex_plug.Common.Text.{
  is_space, nonempty, all_chars, emit, push_char, split_front, split, join,
}

-- A text that `split` leaves whole.
pub record IsWord (w : String) : Type 0 where
  pub some_char : nonempty w ≡ true
  pub no_space : all_chars (λ c. not (is_space c)) w ≡ true

abbrev Spaceless : String → Type 0
Spaceless w = all_chars (λ c. not (is_space c)) w ≡ true

split_front-append :
    (w s : String)
    → Spaceless w
    → split_front (String.◌++◌ w s) ≡ (String.◌++◌ w (split_front s).0, (split_front s).1)
unfolding split_front
split_front-append String.[] s h = rw (append.nil s, append.nil) refl
split_front-append (String.◌∷◌ c w) s h = elim (Bool-cases (is_space c)) [
  | inl e ↦ ground arith
  | inr e ↦
      rw (append.cons c w s, append.cons c w (split_front s).0)
        (ground (arith, split_front-append w s))
]

emit-word : (w : String) (ws : List String) → nonempty w ≡ true → emit w ws ≡ w ∷ ws
emit-word w ws h = rw h

split-eq : (s : String) → split s ≡ emit (split_front s).0 (split_front s).1
unfolding split
split-eq s = refl

split_front-space : (s : String) → split_front (String.◌++◌ " " s) ≡ ("", split s)
unfolding split_front split is_space
split_front-space s = rw (append.cons, append.nil)

-- Words joined by single spaces come back as they were.
pub split-join : (ws : List String) → All IsWord ws → split (join ws) ≡ ws
unfolding join
split-join [] h = unfold split in refl
split-join (w ∷ []) h =
    rw (← append-nil w, split-eq, split_front-append w "" h.0.no_space)
      (unfold split_front in rw append-nil (emit-word w [] h.0.some_char))
split-join (w ∷ (v ∷ ws)) h = rw (
  split-eq,
  split_front-append w (String.◌++◌ " " (join (v ∷ ws))) h.0.no_space,
  split_front-space (join (v ∷ ws)),
  append-nil w,
  h.0.some_char,
  split-join (v ∷ ws) h.1,
)

push_char-Spaceless :
    (b : Bool) (c : Char) (w : String) (ws : List String)
    → is_space c ≡ b
    → Spaceless w
    → Spaceless (push_char b c (w, ws)).0
push_char-Spaceless true c w ws e h = refl
push_char-Spaceless false c w ws e h = rw e h

front-Spaceless : (s : String) → Spaceless (split_front s).0
unfolding split_front
front-Spaceless String.[] = refl
front-Spaceless (String.◌∷◌ c s) =
    push_char-Spaceless (is_space c) c (split_front s).0 (split_front s).1 refl (front-Spaceless s)

emit-IsWord : (w : String) (ws : List String) → Spaceless w → All IsWord ws → All IsWord (emit w ws)
emit-IsWord String.[] ws h hs = hs
emit-IsWord (String.◌∷◌ c w) ws h hs = (record { some_char = refl; no_space = h }, hs)

push_char-IsWord :
    (b : Bool) (c : Char) (w : String) (ws : List String)
    → Spaceless w
    → All IsWord ws
    → All IsWord (push_char b c (w, ws)).1
push_char-IsWord true c w ws h hs = emit-IsWord w ws h hs
push_char-IsWord false c w ws h hs = hs

rest-IsWord : (s : String) → All IsWord (split_front s).1
unfolding split_front
rest-IsWord String.[] = tt
rest-IsWord (String.◌∷◌ c s) =
    push_char-IsWord (is_space c) c (split_front s).0 (split_front s).1 (front-Spaceless s)
      (rest-IsWord s)

pub split-IsWord : (s : String) → All IsWord (split s)
unfolding split
split-IsWord s = emit-IsWord (split_front s).0 (split_front s).1 (front-Spaceless s) (rest-IsWord s)
