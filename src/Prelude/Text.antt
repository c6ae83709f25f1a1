-- ===== src/Prelude/Text.antt =====
-- Python's `s.lower().strip()` on texts of ASCII characters, as a list of code points.
use Prim.Native.Nat.{ℕ, ◌+◌}
use Prim.Native.Char.{code}
use Prim.Native.String.{String}
use mathlib.Core.Bool.{Bool, true, false, ◌&&◌, ◌||◌}
use mathlib.Core.List.{List, [], ◌∷◌, map, reverse}
use cto_test_ai_trading_bot.Prelude.Tests.{leb, ltb, ◌==◌, if◌then◌else◌}

unfoldable pub codes : String → List ℕ
codes String.[] = []
codes (String.◌∷◌ c s) = code c ∷ codes s

unfoldable pub lower : ℕ → ℕ
lower c = if leb 65 c && leb c 90 then c + 32 else c

-- the white space that `strip` removes: tab to carriage return, 28 to 31, and the blank
unfoldable pub is_space : ℕ → Bool
is_space c = (leb 9 c && leb c 13) || (leb 28 c && leb c 32)

unfoldable pub strip_left : List ℕ → List ℕ
unfolding is_space
strip_left [] = []
strip_left (c ∷ cs) = let rest = strip_left cs in if is_space c then rest else c ∷ cs

unfoldable pub lower_strip : String → List ℕ
unfolding codes lower strip_left
lower_strip s = reverse (strip_left (reverse (strip_left (map lower (codes s)))))

unfoldable pub same_codes : List ℕ → List ℕ → Bool
same_codes [] [] = true
same_codes (c ∷ cs) (d ∷ ds) = c == d && same_codes cs ds
same_codes _ _ = false

-- `s.lower().strip() == t`
unfoldable pub is_word : String → String → Bool
unfolding lower_strip same_codes
is_word s t = same_codes (lower_strip s) (codes t)

-- `s < t` on texts, which compares code points from the left
unfoldable pub less_codes : List ℕ → List ℕ → Bool
less_codes [] [] = false
less_codes [] (d ∷ ds) = true
less_codes (c ∷ cs) [] = false
less_codes (c ∷ cs) (d ∷ ds) =
    let rest = less_codes cs ds in if ltb c d then true else if c == d then rest else false

unfoldable pub text_ltb : String → String → Bool
unfolding codes less_codes
text_ltb s t = less_codes (codes s) (codes t)
