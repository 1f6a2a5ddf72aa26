-- ===== src/Text.antt =====
-- Python's `str` as the sources use it: `strip`, control characters, membership in a set of
-- texts, and the order by which `sorted` arranges texts.
pub mod Strip
pub mod Order
pub mod Elem
pub mod Case
pub mod Bounded
use Prim.Native.Char.{Char, code}
use pasi_engineering_workspa.Prelude.{
  ℕ, ◌≡◌, refl, ◌↔◌, Bool, true, false, ◌||◌, ◌&&◌, List, [], ◌∷◌, String, str_eq, leb, ltb, ◌==◌,
  if◌then◌else◌, arith, all, eq_iff, eq_refl,
}

-- The characters that `str.strip` takes off: `str.isspace`.
unfoldable pub is_space : ℕ → Bool
is_space c =
    (leb 9 c && leb c 13)
    || (leb 28 c && leb c 32)
    || c == 133
    || c == 160
    || c == 5760
    || (leb 8192 c && leb c 8202)
    || c == 8232
    || c == 8233
    || c == 8239
    || c == 8287
    || c == 12288

unfoldable pub lstrip : String → String
lstrip String.[] = String.[]
lstrip (String.◌∷◌ c s) = if is_space (code c) then lstrip s else String.◌∷◌ c s

-- A character in front of a text whose end is stripped.
abbrev pub strip_cons : Char → String → String
strip_cons c String.[] = if is_space (code c) then String.[] else String.◌∷◌ c String.[]
strip_cons c (String.◌∷◌ d s) = String.◌∷◌ c (String.◌∷◌ d s)

unfoldable pub rstrip : String → String
rstrip String.[] = String.[]
rstrip (String.◌∷◌ c s) = strip_cons c (rstrip s)

unfoldable pub strip : String → String
unfolding is_space lstrip rstrip
strip s = rstrip (lstrip s)

-- `not s`
abbrev pub is_blank : String → Bool
is_blank String.[] = true
is_blank (String.◌∷◌ c s) = false

-- `any(ord(char) < 32 and char not in exempt for char in s)`, with the test of `exempt` given.
unfoldable pub any_char : (ℕ → Bool) → String → Bool
any_char p String.[] = false
any_char p (String.◌∷◌ c s) = p (code c) || any_char p s

-- `x in xs`
unfoldable pub elem : String → List String → Bool
elem x [] = false
elem x (y ∷ ys) = str_eq x y || elem x ys

-- `len(set(xs)) != len(xs)`
unfoldable pub has_duplicates : List String → Bool
unfolding elem
has_duplicates [] = false
has_duplicates (x ∷ xs) = elem x xs || has_duplicates xs

-- `set(xs) <= set(ys)`
unfoldable pub subset : List String → List String → Bool
unfolding elem all
subset xs ys = all (λ x. elem x ys) xs
