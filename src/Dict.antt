-- ===== src/Dict.antt =====
-- Python's `dict` with text keys: an association list in insertion order. An assignment to a
-- key that is there replaces its value in place; a new key goes to the end.
use pasi_engineering_workspa.Prelude.{
  ◌≡◌, refl, sym, ap, ◌∙◌, true, false, List, [], ◌∷◌, String, str_eq, Option, none, some,
  if◌then◌else◌, arith, eq_iff, eq_refl, ◌+◌, ◌≤◌, length, Bool-cases, inl, inr,
}

abbrev pub Dict {ℓ} : Type ℓ → Type ℓ
Dict V = List (String × V)

module _ {ℓ} {V : Type ℓ} where
  -- `d.get(key)`
  unfoldable pub lookup : String → Dict V → Option V
  lookup key [] = none
  lookup key ((k, v) ∷ d) = if str_eq k key then some v else lookup key d

  -- `d.get(key, default)`
  abbrev pub lookup_or : String → V → Dict V → V
  lookup_or key v d = elim (lookup key d) [ none ↦ v | some w ↦ w ]

  -- `d[key] = v`
  unfoldable pub put : String → V → Dict V → Dict V
  put key v [] = (key, v) ∷ []
  put key v ((k, w) ∷ d) = if str_eq k key then (k, v) ∷ d else (k, w) ∷ put key v d

  pub lookup-put :
      (k j : String) (v : V) (d : Dict V)
      → lookup j (put k v d) ≡ (if str_eq k j then some v else lookup j d)
  unfolding lookup put
  lookup-put k j v [] = refl
  lookup-put k j v ((i, w) ∷ d) =
      ground (arith, eq_iff k j, eq_iff i k, eq_iff i j, lookup-put k j v d)

  pub lookup-put_self : (k : String) (v : V) (d : Dict V) → lookup k (put k v d) ≡ some v
  lookup-put_self k v d = simp (lookup-put, eq_refl)

  pub lookup-put_same :
      (k j : String) (v : V) (d : Dict V) → str_eq k j ≡ true → lookup j (put k v d) ≡ some v
  lookup-put_same k j v d h = rw (lookup-put k j v d, h)

  pub lookup-put_other :
      (k j : String) (v : V) (d : Dict V) → str_eq k j ≡ false → lookup j (put k v d) ≡ lookup j d
  lookup-put_other k j v d h = rw (lookup-put k j v d, h)

  pub lookup_or-put :
      (k j : String) (v w : V) (d : Dict V)
      → lookup_or j w (put k v d) ≡ (if str_eq k j then v else lookup_or j w d)
  lookup_or-put k j v w d = elim (Bool-cases (str_eq k j)) [
    | inl e ↦ rw (lookup_or, lookup-put_same k j v d e, e) refl
    | inr e ↦ rw (lookup_or, lookup-put_other k j v d e, e) refl
  ]

  pub length-put : (k : String) (v : V) (d : Dict V) → length (put k v d) ≤ length d + 1
  unfolding put
  length-put k v [] = omega arith
  length-put k v ((i, w) ∷ d) = ground (arith, length-put k v d)

  pub length-put_new :
      (k : String) (v : V) (d : Dict V) → lookup k d ≡ none → length (put k v d) ≡ length d + 1
  unfolding put lookup
  length-put_new k v [] h = omega arith
  length-put_new k v ((i, w) ∷ d) h = elim (Bool-cases (str_eq i k)) [
    | inl e ↦ absurd (cc (rw (lookup, e) at h))
    | inr e ↦ rw (put, e) (omega (arith, length-put_new k v d (rw (lookup, e) at h)))
  ]

  -- A key that is there is another than one that is not.
  pub str_eq-false_of_lookup :
      (k j : String) (d : Dict V) {v : V}
      → lookup k d ≡ none
      → lookup j d ≡ some v
      → str_eq k j ≡ false
  str_eq-false_of_lookup k j d h there = elim (Bool-cases (str_eq k j)) [
    | inr e ↦ e
    | inl e ↦
        let same : k ≡ j = ground (arith, eq_iff k j) in
        absurd (cc (sym h ∙ ap (λ i. lookup i d) same ∙ there))
  ]
