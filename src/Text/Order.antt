-- ===== src/Text/Order.antt =====
-- The order of texts by code points, and equality tests on texts and on sets of texts.
use Prim.Native.Nat.{Ordering, compare as compare_ℕ}
use Prim.Native.Char.{code}
use Prim.Native.String.compare
use Prim.Native.String.{[], ◌∷◌, compare, then}
use pasi_engineering_workspa.Prelude.{◌≡◌, refl, sym, Bool, true, false, String, ℕ, arith}

-- `s <= t` of two texts
abbrev pub leb_text : String → String → Bool
leb_text s t = elim (compare s t) [ Ordering.gt ↦ false | _ ↦ true ]

abbrev flip : Ordering → Ordering
flip Ordering.lt = Ordering.gt
flip Ordering.eq = Ordering.eq
flip Ordering.gt = Ordering.lt

flip-compare_ℕ : (a b : ℕ) → compare_ℕ b a ≡ flip (compare_ℕ a b)
flip-compare_ℕ a b = ground arith

flip-then : (o p : Ordering) → flip (then o p) ≡ then (flip o) (flip p)
flip-then Ordering.lt p = refl
flip-then Ordering.eq p = refl
flip-then Ordering.gt p = refl

flip-compare : (s t : String) → compare t s ≡ flip (compare s t)
flip-compare [] [] = refl
flip-compare [] (d ∷ t) = rw (compare.nil-cons d t, compare.cons-nil d t)
flip-compare (c ∷ s) [] = rw (compare.nil-cons c s, compare.cons-nil c s)
flip-compare (c ∷ s) (d ∷ t) =
    rw
      (
        compare.cons-cons c d s t,
        compare.cons-cons d c t s,
        flip-compare_ℕ (code c) (code d),
        flip-compare s t,
      )
      (sym (flip-then _ _))

-- The order is total: what is not below is above.
pub leb_text_total : (s t : String) → leb_text s t ≡ false → leb_text t s ≡ true
leb_text_total s t h = ground (arith, flip-compare s t)

abbrev not_above : Ordering → Bool
not_above Ordering.gt = false
not_above _ = true

then_trans :
    (a b c : ℕ) (o p q : Ordering)
    → not_above (then (compare_ℕ a b) o) ≡ true
    → not_above (then (compare_ℕ b c) p) ≡ true
    → (not_above o ≡ true → not_above p ≡ true → not_above q ≡ true)
    → not_above (then (compare_ℕ a c) q) ≡ true
then_trans a b c o p q h k f = ground (arith, f)

pub leb_text_trans :
    (s t u : String) → leb_text s t ≡ true → leb_text t u ≡ true → leb_text s u ≡ true
leb_text_trans [] t [] h k = refl
leb_text_trans [] t (e ∷ u) h k = rw (leb_text, compare.nil-cons e u) refl
leb_text_trans (c ∷ s) [] u h k = cc (rw (leb_text, compare.cons-nil c s) at h)
leb_text_trans (c ∷ s) (d ∷ t) [] h k = cc (rw (leb_text, compare.cons-nil d t) at k)
leb_text_trans (c ∷ s) (d ∷ t) (e ∷ u) h k =
    rw (leb_text, compare.cons-cons c e s u)
      (then_trans (code c) (code d) (code e) (compare s t) (compare t u) (compare s u)
        (rw (leb_text, compare.cons-cons c d s t) at h)
        (rw (leb_text, compare.cons-cons d e t u) at k) (leb_text_trans s t u))
