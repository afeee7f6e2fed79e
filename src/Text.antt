-- ===== src/Text.antt =====
-- Python's `str` as the contracts inspect it: length in code points, `strip`, and the character
-- classes of the regular expressions. Also timestamps, which are naive or carry a time zone.
use Prim.Native.Char.{code}
use pangi.Prelude.{
  ℕ, String, Bool, true, false, ◌&&◌, ◌||◌, not, List, [], ◌∷◌, length, is_empty, leb, ◌==◌,
  if◌then◌else◌,
}
use mathlib.Core.List.{reverse}

abbrev pub codes : String → List ℕ
codes String.[] = []
codes (String.◌∷◌ c s) = code c ∷ codes s

-- The code points that `str.strip` removes.
unfoldable pub is_space : ℕ → Bool
is_space c =
    (leb 9 c && leb c 13)
    || (leb 28 c && leb c 32)
    || c == 133
    || c == 160
    || c == 5760
    || (leb 8192 c && leb c 8202)
    || c == 8232
    || c == 8233
    || c == 8239
    || c == 8287
    || c == 12288

unfoldable pub left_strip : List ℕ → List ℕ
unfolding is_space
left_strip [] = []
left_strip (c ∷ cs) = let rest = left_strip cs in if is_space c then rest else c ∷ cs

unfoldable pub strip : List ℕ → List ℕ
unfolding left_strip
strip cs = reverse (left_strip (reverse (left_strip cs)))

unfoldable pub same_codes : List ℕ → List ℕ → Bool
same_codes [] [] = true
same_codes [] (d ∷ ds) = false
same_codes (c ∷ cs) [] = false
same_codes (c ∷ cs) (d ∷ ds) = c == d && same_codes cs ds

-- value.strip() != value
unfoldable pub is_padded : String → Bool
unfolding strip same_codes
is_padded s = not (same_codes (strip (codes s)) (codes s))

-- not value.strip()
unfoldable pub is_blank : String → Bool
unfolding strip
is_blank s = is_empty (strip (codes s))

abbrev pub len : String → ℕ
len s = length (codes s)

abbrev pub is_lower : ℕ → Bool
is_lower c = leb b'a' c && leb c b'z'

abbrev pub is_upper : ℕ → Bool
is_upper c = leb b'A' c && leb c b'Z'

abbrev pub is_digit : ℕ → Bool
is_digit c = leb b'0' c && leb c b'9'

abbrev pub is_alnum : ℕ → Bool
is_alnum c = is_upper c || is_lower c || is_digit c

-- A timestamp's instant, in microseconds. `aware` has a time zone and a UTC offset.
pub data DateTime : Type 0 where
  naive : ℕ → DateTime
  aware : ℕ → DateTime
