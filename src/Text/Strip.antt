-- ===== src/Text/Strip.antt =====
-- `str.strip` is idempotent.
use Prim.Native.Char.{Char, code}
use Prim.Native.String.{String, [], ◌∷◌}
use pasi_engineering_workspa.Prelude.{
  ◌≡◌, refl, inl, inr, ◌∙◌, ap, true, false, Bool-cases, arith, ℕ, Bool, false,
}
use pasi_engineering_workspa.Text.{any_char, is_space, lstrip, rstrip, strip, strip_cons}

rstrip-strip_cons :
    (c : Char) (s : String) → rstrip s ≡ s → rstrip (strip_cons c s) ≡ strip_cons c s
unfolding rstrip
rstrip-strip_cons c [] h = elim (Bool-cases (is_space (code c))) [
  | inl e ↦ rw e
  | inr e ↦ rw e (rw e)
]
rstrip-strip_cons c (d ∷ s) h = rw h

rstrip-rstrip : (s : String) → rstrip (rstrip s) ≡ rstrip s
unfolding rstrip
rstrip-rstrip [] = refl
rstrip-rstrip (c ∷ s) = rstrip-strip_cons c (rstrip s) (rstrip-rstrip s)

-- Empty, or begins with a character that is no space.
abbrev Starts : String → Type 0
Starts [] = Unit
Starts (c ∷ s) = is_space (code c) ≡ false

lstrip-Starts : (s : String) → Starts (lstrip s)
unfolding lstrip
lstrip-Starts [] = tt
lstrip-Starts (c ∷ s) = elim (Bool-cases (is_space (code c))) [
  | inl e ↦ rw e (lstrip-Starts s)
  | inr e ↦ rw e e
]

strip_cons-Starts : (c : Char) (s : String) → is_space (code c) ≡ false → Starts (strip_cons c s)
strip_cons-Starts c [] h = rw h h
strip_cons-Starts c (d ∷ s) h = h

rstrip-Starts : (s : String) → Starts s → Starts (rstrip s)
unfolding rstrip
rstrip-Starts [] h = tt
rstrip-Starts (c ∷ s) h = strip_cons-Starts c (rstrip s) h

lstrip-eq_of_Starts : (s : String) → Starts s → lstrip s ≡ s
unfolding lstrip
lstrip-eq_of_Starts [] h = refl
lstrip-eq_of_Starts (c ∷ s) h = rw h

pub strip-strip : (s : String) → strip (strip s) ≡ strip s
unfolding strip
strip-strip s =
    ap rstrip (lstrip-eq_of_Starts (rstrip (lstrip s)) (rstrip-Starts (lstrip s) (lstrip-Starts s)))
    ∙ rstrip-rstrip (lstrip s)

pub any_char_mono :
    (p q : ℕ → Bool) (s : String)
    → ((c : ℕ) → p c ≡ true → q c ≡ true)
    → any_char q s ≡ false
    → any_char p s ≡ false
unfolding any_char
any_char_mono p q [] h e = refl
any_char_mono p q (c ∷ s) h e = ground (arith, h (code c), any_char_mono p q s h)

rstrip_no_space : (s : String) → any_char is_space s ≡ false → rstrip s ≡ s
unfolding any_char rstrip
rstrip_no_space [] h = refl
rstrip_no_space (c ∷ []) h = ground arith
rstrip_no_space (c ∷ (d ∷ s)) h = rw (rstrip_no_space (d ∷ s) (ground arith))

-- A text with no white space is left as it is.
pub strip_no_space : (s : String) → any_char is_space s ≡ false → strip s ≡ s
unfolding strip any_char
strip_no_space [] h = refl
strip_no_space (c ∷ s) h =
    ap rstrip (lstrip-eq_of_Starts (c ∷ s) (ground arith)) ∙ rstrip_no_space (c ∷ s) h

strip_both_ends : strip " \t a b \n" ≡ "a b"
unfolding strip
strip_both_ends = refl
