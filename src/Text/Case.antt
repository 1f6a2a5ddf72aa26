-- ===== src/Text/Case.antt =====
-- Python's `str.lower`, as far as the sources compare its result with texts of ASCII letters.
use Prim.Native.Char.{code}
use pasi_engineering_workspa.Prelude.{
  ℕ, ◌+◌, Bool, true, false, ◌&&◌, ◌||◌, String, List, [], ◌∷◌, leb, ◌==◌, if◌then◌else◌,
}

-- The letters from A to Z, and the Kelvin sign, whose lower case is the letter k. No other character
-- has a lower case that is ASCII.
unfoldable pub lower : ℕ → ℕ
lower c = if leb 65 c && leb c 90 then c + 32 else if c == 8490 then 107 else c

-- `s.lower() == t`, at a text `t` of ASCII characters
unfoldable pub lower_eq : String → String → Bool
unfolding lower
lower_eq String.[] String.[] = true
lower_eq (String.◌∷◌ c s) (String.◌∷◌ d t) = lower (code c) == code d && lower_eq s t
lower_eq _ _ = false

-- `s.lower() in {…}`
unfoldable pub lower_in : String → List String → Bool
unfolding lower_eq
lower_in s [] = false
lower_in s (t ∷ ts) = lower_eq s t || lower_in s ts
