-- ===== src/Memory/Retrieval/Distinct.antt =====
-- The terms of src/pasi/core/retrieval.py are sets: no text stands twice in the lists that model them.
use pasi_engineering_workspa.Prelude.{
  ◌≡◌, refl, ◌∙◌, inl, inr, Bool, false, ◌||◌, String, str_eq, eq_iff, Bool-cases, List, [], ◌∷◌,
  keep, arith,
}
use pasi_engineering_workspa.Text.{has_duplicates, elem}
use pasi_engineering_workspa.Text.Order.{leb_text}
use pasi_engineering_workspa.Text.Elem.{elem-sort}
use pasi_engineering_workspa.Sort.{insert, sort}
use pasi_engineering_workspa.Memory.Compaction.{set_of}
use pasi_engineering_workspa.Memory.Compaction.Plans.{elem-set_of}

pub or_false : (a b : Bool) → (a || b) ≡ false → (a ≡ false) × (b ≡ false)
or_false a b h = ground arith

elem-keep_new :
    (p : String → Bool) (x : String) (xs : List String)
    → elem x xs ≡ false
    → elem x (keep p xs) ≡ false
unfolding elem keep
elem-keep_new p x [] h = refl
elem-keep_new p x (y ∷ ys) h =
    let (other, rest) = or_false (str_eq x y) (elem x ys) h in
    elim (Bool-cases (p y)) [
      | inl e ↦ rw (e, other) (elem-keep_new p x ys rest)
      | inr e ↦ rw e (elem-keep_new p x ys rest)
    ]

elem-insert_new :
    (y x : String) (ys : List String)
    → str_eq y x ≡ false
    → elem y ys ≡ false
    → elem y (insert leb_text x ys) ≡ false
unfolding insert elem
elem-insert_new y x [] h k = rw h refl
elem-insert_new y x (z ∷ zs) h k =
    let (other, rest) = or_false (str_eq y z) (elem y zs) k in
    elim (Bool-cases (leb_text x z)) [
      | inl e ↦ rw (e, h) k
      | inr e ↦ rw (e, other) (elem-insert_new y x zs h rest)
    ]

not_same : (x y : String) → str_eq x y ≡ false → str_eq y x ≡ false
not_same x y h = ground (arith, eq_iff x y, eq_iff y x)

has_duplicates-insert :
    (x : String) (ys : List String)
    → elem x ys ≡ false
    → has_duplicates ys ≡ false
    → has_duplicates (insert leb_text x ys) ≡ false
unfolding has_duplicates insert elem
has_duplicates-insert x [] h k = refl
has_duplicates-insert x (y ∷ ys) h k =
    let (new, distinct) = or_false (elem y ys) (has_duplicates ys) k in
    let (other, rest) = or_false (str_eq x y) (elem x ys) h in
    elim (Bool-cases (leb_text x y)) [
      | inl e ↦ rw (e, other, rest) k
      | inr e ↦
          rw (e, elem-insert_new y x ys (not_same x y other) new)
            (has_duplicates-insert x ys rest distinct)
    ]

pub has_duplicates-sort :
    (xs : List String) → has_duplicates xs ≡ false → has_duplicates (sort leb_text xs) ≡ false
unfolding has_duplicates sort
has_duplicates-sort [] h = refl
has_duplicates-sort (x ∷ xs) h =
    let (new, rest) = or_false (elem x xs) (has_duplicates xs) h in
    has_duplicates-insert x (sort leb_text xs) (elem-sort leb_text x xs ∙ new)
      (has_duplicates-sort xs rest)

pub has_duplicates-keep :
    (p : String → Bool) (xs : List String)
    → has_duplicates xs ≡ false
    → has_duplicates (keep p xs) ≡ false
unfolding has_duplicates keep
has_duplicates-keep p [] h = refl
has_duplicates-keep p (x ∷ xs) h =
    let (new, rest) = or_false (elem x xs) (has_duplicates xs) h in
    elim (Bool-cases (p x)) [
      | inl e ↦ rw (e, elem-keep_new p x xs new) (has_duplicates-keep p xs rest)
      | inr e ↦ rw e (has_duplicates-keep p xs rest)
    ]

pub has_duplicates-set_of : (xs : List String) → has_duplicates (set_of xs) ≡ false
unfolding has_duplicates set_of
has_duplicates-set_of [] = refl
has_duplicates-set_of (x ∷ xs) = elim (Bool-cases (elem x xs)) [
  | inl e ↦ rw e (has_duplicates-set_of xs)
  | inr e ↦ rw (e, elem-set_of x xs, e) (has_duplicates-set_of xs)
]
