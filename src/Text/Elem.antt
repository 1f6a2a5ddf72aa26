-- ===== src/Text/Elem.antt =====
-- Membership in a list of texts, and counting: a list without repetition whose members all stand in
-- another is not longer.
use pasi_engineering_workspa.Prelude.{
  suc, ◌≤◌, ◌≡◌, refl, sym, ◌∙◌, Bool, true, false, ◌||◌, ◌⊎◌, String, str_eq, eq_iff, eq_refl,
  List, [], ◌∷◌, ◌++◌, length, arith, if◌then◌else◌, all, any, ap, ◌≢◌,
}
use pasi_engineering_workspa.Sort.{sort, any-sort}
use pasi_engineering_workspa.Text.{elem, has_duplicates, subset}

pub elem_head : (x : String) (xs : List String) → elem x (x ∷ xs) ≡ true
unfolding elem
elem_head x xs = rw (eq_refl x)

pub elem-append : (x : String) (xs ys : List String) → elem x (xs ++ ys) ≡ (elem x xs || elem x ys)
unfolding elem
elem-append x [] ys = refl
elem-append x (y ∷ xs) ys = ground (arith, elem-append x xs ys)

-- A member of a subset is a member.
pub elem-subset :
    (x : String) (xs ys : List String) → subset xs ys ≡ true → elem x xs ≡ true → elem x ys ≡ true
unfolding subset elem all
elem-subset x [] ys h m = cc
elem-subset x (y ∷ xs) ys h m = ground (arith, eq_iff x y, elem-subset x xs ys)

pub subset_of_elem :
    (xs ys : List String)
    → ((x : String) → elem x xs ≡ true → elem x ys ≡ true)
    → subset xs ys ≡ true
unfolding subset elem all
subset_of_elem [] ys h = refl
subset_of_elem (x ∷ xs) ys h =
    ground (arith, h x (elem_head x xs), subset_of_elem xs ys (λ z m. h z (ground (arith, m))))

-- The list with one occurrence of a text less.
without : String → List String → List String
without x [] = []
without x (y ∷ ys) = if str_eq x y then ys else y ∷ without x ys

length-without :
    (x : String) (ys : List String) → elem x ys ≡ true → suc (length (without x ys)) ≡ length ys
unfolding without elem
length-without x [] h = cc
length-without x (y ∷ ys) h = ground (arith, length-without x ys)

elem-without :
    (x z : String) (ys : List String)
    → str_eq z x ≡ false
    → elem z ys ≡ true
    → elem z (without x ys) ≡ true
unfolding without elem
elem-without x z [] h m = cc
elem-without x z (y ∷ ys) h m =
    ground (arith, eq_iff x y, eq_iff z y, eq_iff z x, elem-without x z ys)

subset-without :
    (x : String) (xs ys : List String)
    → elem x xs ≡ false
    → subset xs ys ≡ true
    → subset xs (without x ys) ≡ true
unfolding subset elem all
subset-without x [] ys h s = refl
subset-without x (z ∷ xs) ys h s =
    ground (arith, eq_iff x z, eq_iff z x, elem-without x z ys, subset-without x xs ys)

pub length-le_of_subset :
    (xs ys : List String) → has_duplicates xs ≡ false → subset xs ys ≡ true → length xs ≤ length ys
unfolding has_duplicates subset elem all
length-le_of_subset [] ys d s = omega arith
length-le_of_subset (x ∷ xs) ys d s =
    ground
      (arith, length-without x ys, subset-without x xs ys, length-le_of_subset xs (without x ys))

pub subset_nil : (ys : List String) → subset [] ys ≡ true
unfolding subset all
subset_nil ys = refl

pub subset_cons :
    (x : String) (xs ys : List String)
    → elem x ys ≡ true
    → subset xs ys ≡ true
    → subset (x ∷ xs) ys ≡ true
unfolding subset all
subset_cons x xs ys m s = rw m s

pub elem_cons :
    (x y : String) (xs : List String) → elem x (y ∷ xs) ≡ true → (x ≡ y) ⊎ (elem x xs ≡ true)
unfolding elem
elem_cons x y xs h = ground (arith, eq_iff x y)

pub elem_tail : (x y : String) (xs : List String) → elem x xs ≡ true → elem x (y ∷ xs) ≡ true
unfolding elem
elem_tail x y xs h = ground arith

pub not-elem_nil : (x : String) → elem x [] ≡ true → ⊥
unfolding elem
not-elem_nil x h = cc

pub has_duplicates_cons :
    (x : String) (xs : List String)
    → elem x xs ≡ false
    → has_duplicates xs ≡ false
    → has_duplicates (x ∷ xs) ≡ false
unfolding has_duplicates
has_duplicates_cons x xs m d = rw m d

elem-any : (x : String) (xs : List String) → elem x xs ≡ any (str_eq x) xs
unfolding elem any
elem-any x [] = refl
elem-any x (y ∷ xs) = ap (λ b. str_eq x y || b) (elem-any x xs)

pub elem-sort :
    (before : String → String → Bool) (x : String) (xs : List String)
    → elem x (sort before xs) ≡ elem x xs
elem-sort before x xs =
    elem-any x (sort before xs) ∙ any-sort before (str_eq x) xs ∙ sym (elem-any x xs)

pub ne_of_test : (s t : String) → str_eq s t ≡ false → s ≢ t
ne_of_test s t h e = cc ((eq_iff s t).1 e)
