-- ===== src/Sort.antt =====
-- Python's `sorted`: stable, by a test of "not after". The sort keeps the items and orders them.
use mathlib.Core.List.Perm
use mathlib.Core.List.{Perm}
use pasi_engineering_workspa.Prelude.{
  suc, ◌≡◌, refl, ◌∙◌, ap, Bool, true, false, List, [], ◌∷◌, if◌then◌else◌, Bool-cases, inl, inr,
  arith, All, length, any, all, ◌||◌, ◌&&◌, map,
}

module _ {ℓ} {A : Type ℓ} (before : A → A → Bool) where
  unfoldable pub insert : A → List A → List A
  insert x [] = x ∷ []
  insert x (y ∷ ys) = if before x y then x ∷ y ∷ ys else y ∷ insert x ys

  unfoldable pub sort : List A → List A
  unfolding insert
  sort [] = []
  sort (x ∷ xs) = insert x (sort xs)

  insert-perm : (x : A) (xs : List A) → Perm (insert x xs) (x ∷ xs)
  unfolding insert
  insert-perm x [] = Perm.refl _
  insert-perm x (y ∷ ys) = elim (Bool-cases (before x y)) [
    | inl e ↦ rw e (Perm.refl _)
    | inr e ↦ rw e (Perm.trans (Perm.cons y (insert-perm x ys)) (Perm.swap x y ys))
  ]

  pub sort-perm : (xs : List A) → Perm (sort xs) xs
  unfolding sort
  sort-perm [] = Perm.refl _
  sort-perm (x ∷ xs) = Perm.trans (insert-perm x (sort xs)) (Perm.cons x (sort-perm xs))

  insert-All {κ} : (P : A → Type κ) (x : A) (xs : List A) → P x → All P xs → All P (insert x xs)
  unfolding insert
  insert-All P x [] h hs = (h, tt)
  insert-All P x (y ∷ ys) h (hy, hs) = elim (Bool-cases (before x y)) [
    | inl e ↦ rw e (h, (hy, hs))
    | inr e ↦ rw e (hy, insert-All P x ys h hs)
  ]

  pub sort-All {κ} : (P : A → Type κ) (xs : List A) → All P xs → All P (sort xs)
  unfolding sort
  sort-All P [] h = tt
  sort-All P (x ∷ xs) (h, hs) = insert-All P x (sort xs) h (sort-All P xs hs)

  length-insert : (x : A) (xs : List A) → length (insert x xs) ≡ suc (length xs)
  unfolding insert
  length-insert x [] = refl
  length-insert x (y ∷ ys) = ground (arith, length-insert x ys)

  pub length-sort : (xs : List A) → length (sort xs) ≡ length xs
  unfolding sort
  length-sort [] = refl
  length-sort (x ∷ xs) = length-insert x (sort xs) ∙ ap suc (length-sort xs)

  -- The first item is before the others.
  abbrev pub IsOrdered : List A → Type ℓ
  IsOrdered [] = Unit
  IsOrdered (x ∷ xs) = All (λ y. before x y ≡ true) xs × IsOrdered xs

pub All-map {ℓ κ μ} :
    {A : Type ℓ} {P : A → Type κ} {Q : A → Type μ} (xs : List A)
    → ((x : A) → P x → Q x)
    → All P xs
    → All Q xs
All-map [] f h = tt
All-map (x ∷ xs) f (h, hs) = (f x h, All-map xs f hs)

-- The order is total and transitive.
module _ {ℓ} {A : Type ℓ} (before : A → A → Bool)
    (total : (x y : A) → before x y ≡ false → before y x ≡ true)
    (trans : (x y z : A) → before x y ≡ true → before y z ≡ true → before x z ≡ true) where
  insert-IsOrdered :
      (x : A) (xs : List A) → IsOrdered before xs → IsOrdered before (insert before x xs)
  unfolding insert
  insert-IsOrdered x [] h = (tt, tt)
  insert-IsOrdered x (y ∷ ys) (first, rest) = elim (Bool-cases (before x y)) [
    | inl e ↦ rw e ((e, All-map ys (λ z. trans x y z e) first), (first, rest))
    | inr e ↦ rw e (
      insert-All before (λ z. before y z ≡ true) x ys (total x y e) first,
      insert-IsOrdered x ys rest,
    )
  ]

  pub sort-IsOrdered : (xs : List A) → IsOrdered before (sort before xs)
  unfolding sort
  sort-IsOrdered [] = tt
  sort-IsOrdered (x ∷ xs) = insert-IsOrdered x (sort before xs) (sort-IsOrdered xs)

module _ {ℓ} {A : Type ℓ} (before : A → A → Bool) (p : A → Bool) where
  any-insert : (x : A) (xs : List A) → any p (insert before x xs) ≡ (p x || any p xs)
  unfolding insert any
  any-insert x [] = refl
  any-insert x (y ∷ ys) = ground (arith, any-insert x ys)

  -- A sorted list has an item of a kind exactly where the list has one.
  pub any-sort : (xs : List A) → any p (sort before xs) ≡ any p xs
  unfolding sort any
  any-sort [] = refl
  any-sort (x ∷ xs) = ground (arith, any-insert x (sort before xs), any-sort xs)

module _ {ℓ κ} {A : Type ℓ} {B : Type κ} (f : A → B) (before : B → B → Bool) where
  map-insert :
      (x : A) (xs : List A)
      → map f (insert (λ a b. before (f a) (f b)) x xs) ≡ insert before (f x) (map f xs)
  unfolding insert
  map-insert x [] = refl
  map-insert x (y ∷ ys) = elim (Bool-cases (before (f x) (f y))) [
    | inl e ↦ rw e refl
    | inr e ↦ rw e (ap (λ l. f y ∷ l) (map-insert x ys))
  ]

  -- Sorting by a key and then taking the keys sorts the keys.
  pub map-sort :
      (xs : List A) → map f (sort (λ a b. before (f a) (f b)) xs) ≡ sort before (map f xs)
  unfolding sort
  map-sort [] = refl
  map-sort (x ∷ xs) =
      map-insert x (sort (λ a b. before (f a) (f b)) xs) ∙ ap (insert before (f x)) (map-sort xs)

module _ {ℓ} {A : Type ℓ} (before : A → A → Bool) (p : A → Bool) where
  all-insert : (x : A) (xs : List A) → all p (insert before x xs) ≡ (p x && all p xs)
  unfolding insert all
  all-insert x [] = refl
  all-insert x (y ∷ ys) = ground (arith, all-insert x ys)

  pub all-sort : (xs : List A) → all p (sort before xs) ≡ all p xs
  unfolding sort all
  all-sort [] = refl
  all-sort (x ∷ xs) = ground (arith, all-insert x (sort before xs), all-sort xs)
