-- ===== src/Provider/Selection/Laws.antt =====
-- What the selected provider offers, and when none is selected.
use pasi_engineering_workspa.Prelude.{
  ℤ, ltb_ℤ, ◌≡◌, refl, sym, ap, ◌∙◌, subst, Bool, true, false, not, ◌&&◌, String, str_eq, eq_refl,
  ok, >>=-eq-ok, Option, none, some, List, [], ◌∷◌, keep, any, is_empty, All, All-append, arith,
  Bool-cases, Option-cases, inl, inr, ok-injective,
}
use pasi_engineering_workspa.Text.{elem, subset}
use pasi_engineering_workspa.Text.Order.{leb_text}
use pasi_engineering_workspa.Text.Elem.{elem-sort, elem_head}
use pasi_engineering_workspa.Dict.{Dict}
use pasi_engineering_workspa.Sort.{sort, sort-All, All-map}
use pasi_engineering_workspa.Planning.Dependency.Laws.{
  is_empty-sort, is_empty-dedup, is_empty-keep-not,
}
use pasi_engineering_workspa.Planning.Selection.{head}
use pasi_engineering_workspa.Provider.{ProviderCapability}
use pasi_engineering_workspa.Provider.Selection.{
  ProviderRequirements, missing_capabilities, unmet, best_model, Candidate, preference_of, consider,
  consider_all, better, ProviderSelection, chosen, select_provider,
}

-- The declaration has every required capability and enough tokens.
abbrev pub meets : ProviderRequirements → ProviderCapability → Bool
meets q c =
    subset q.required_capabilities c.capabilities
    && (not (ltb_ℤ c.context_window_tokens q.min_context_window_tokens)
        && not (ltb_ℤ c.max_output_tokens q.max_output_tokens))

-- The declaration is of this provider, offers this model and meets the requirements.
abbrev pub supplies : ProviderRequirements → String → String → ProviderCapability → Bool
supplies q provider model c = str_eq c.provider provider && (elem model c.models && meets q c)

is_empty-missing_capabilities :
    (q : ProviderRequirements) (c : ProviderCapability)
    → is_empty (missing_capabilities q c) ≡ subset q.required_capabilities c.capabilities
unfolding missing_capabilities subset
is_empty-missing_capabilities q c =
    is_empty-sort _
    ∙ is_empty-dedup _
    ∙ is_empty-keep-not (λ v. elem v c.capabilities) q.required_capabilities

unfoldable pub is_none : Option String → Bool
is_none none = true
is_none (some _) = false

pub unmet-meets :
    (q : ProviderRequirements) (c : ProviderCapability) → is_none (unmet q c) ≡ meets q c
unfolding unmet is_none
unmet-meets q c = ground (arith, is_empty-missing_capabilities q c)

elem-keep_head :
    (p : String → Bool) (m : String) (xs rest : List String) → keep p xs ≡ m ∷ rest → p m ≡ true
unfolding keep
elem-keep_head p m [] rest h = cc
elem-keep_head p m (x ∷ xs) rest h = elim (Bool-cases (p x)) [
  | inl e ↦ subst (λ k. p k ≡ true) {x = x} {y = m} (cc (rw e at h)) e
  | inr e ↦ elem-keep_head p m xs rest (rw e at h)
]

best_model-elem :
    (q : ProviderRequirements) (c : ProviderCapability) (m : String)
    → best_model q c ≡ some m
    → elem m c.models ≡ true
unfolding best_model
best_model-elem q c m h = go (keep (λ v. elem v c.models) q.preferred_models) refl h
  where
    first : (xs : List String) → head xs ≡ some m → elem m xs ≡ true
    first [] e = cc
    first (x ∷ xs) e = subst (λ k. elem k (x ∷ xs) ≡ true) {x = x} {y = m} (cc e) (elem_head x xs)

    go :
        (kept : List String)
        → keep (λ v. elem v c.models) q.preferred_models ≡ kept
        → (elim kept [ n ∷ _ ↦ some n | [] ↦ head (sort leb_text c.models) ]) ≡ some m
        → elem m c.models ≡ true
    go [] k e = sym (elem-sort leb_text m c.models) ∙ first (sort leb_text c.models) e
    go (n ∷ rest) k e =
        elem-keep_head (λ v. elem v c.models) m q.preferred_models rest
          (k ∙ ap (λ x. x ∷ rest) {x = n} {y = m} (cc e))

-- Any test that the declaration passes is passed by one of the list.
abbrev IsListed : List ProviderCapability → ProviderCapability → Type 0
IsListed registered c = (p : ProviderCapability → Bool) → p c ≡ true → any p registered ≡ true

All-IsListed : (cs : List ProviderCapability) → All (IsListed cs) cs
unfolding any
All-IsListed [] = tt
All-IsListed (c ∷ cs) =
    (λ p h. rw h refl, All-map cs (λ d listed p h. ground (arith, listed p h)) (All-IsListed cs))

abbrev IsOffer : ProviderRequirements → List ProviderCapability → Candidate → Type 0
IsOffer q registered a = any (supplies q a.provider a.model) registered ≡ true

pub none_of : (o : Option String) → o ≡ none → is_none o ≡ true
unfolding is_none
none_of o h = rw h refl

supplies_here :
    (q : ProviderRequirements) (c : ProviderCapability) (m : String)
    → meets q c ≡ true
    → elem m c.models ≡ true
    → supplies q c.provider m c ≡ true
supplies_here q c m h k = rw (eq_refl c.provider, k) h

consider-All :
    (q : ProviderRequirements) (preferences : Dict (Option ℤ))
    (registered : List ProviderCapability) (c : ProviderCapability) (excluded : Dict String)
    (candidates : List Candidate) {made : Dict String × List Candidate}
    → consider q preferences c (excluded, candidates) ≡ ok made
    → IsListed registered c
    → All (IsOffer q registered) candidates
    → All (IsOffer q registered) made.1
unfolding consider
consider-All q preferences registered c excluded candidates {made} h listed a =
    let P = IsOffer q registered in
    let same : (cs : List Candidate) → All P cs → cs ≡ made.1 → All P made.1 =
      λ cs b e. subst (All P) e b in
    elim (Option-cases (unmet q c)) [
      | inr (reason, e) ↦
          let h₁ = rw (consider, e) at h in
          same candidates a (ap (λ (m : Dict String × List Candidate). m.1) (ok-injective h₁))
      | inl fine ↦
          let h₁ = rw (consider, fine) at h in
          elim (Option-cases (best_model q c)) [
            | inl lost ↦ absurd (cc (rw lost at h₁))
            | inr (model, found) ↦
                let h₂ = rw found at h₁ in
                elim (Option-cases (preference_of preferences c.provider)) [
                  | inl bad ↦
                      same candidates a (
                        ap (λ (m : Dict String × List Candidate). m.1)
                          (ok-injective (rw bad at h₂)))
                  | inr (rank, rated) ↦
                      let meeting = sym (unmet-meets q c) ∙ none_of (unmet q c) fine in
                      same _
                        (All-append P candidates
                          (record { provider = c.provider; model = model; rank = rank } ∷ []) a
                          (
                            listed (supplies q c.provider model)
                                (supplies_here q c model meeting (best_model-elem q c model found)),
                            tt,
                          ))
                        (ap (λ (m : Dict String × List Candidate). m.1)
                          (ok-injective (rw rated at h₂)))
                ]
          ]
    ]

consider_all-All :
    (q : ProviderRequirements) (preferences : Dict (Option ℤ))
    (registered : List ProviderCapability) (cs : List ProviderCapability)
    (made : Dict String × List Candidate) {after : Dict String × List Candidate}
    → consider_all q preferences cs made ≡ ok after
    → All (IsListed registered) cs
    → All (IsOffer q registered) made.1
    → All (IsOffer q registered) after.1
unfolding consider_all
consider_all-All q preferences registered [] made h l a =
    subst (λ (m : Dict String × List Candidate). All (IsOffer q registered) m.1) (ok-injective h) a
consider_all-All q preferences registered (c ∷ cs) made h (l, ls) a =
    let (next, now, later) = >>=-eq-ok (consider q preferences c made) _ h in
    consider_all-All q preferences registered cs next later ls
      (consider-All q preferences registered c made.0 made.1 now l a)

-- A provider is selected only with a model that one of the registered declarations of this provider
-- lists, where that declaration has every required capability, at least the required context window
-- and at least the required output.
pub select_provider-supplies :
    (digest : String) (registered : List ProviderCapability) (q : ProviderRequirements)
    (preferences : Dict (Option ℤ)) {s : ProviderSelection}
    → select_provider digest registered q preferences ≡ ok s
    → any (supplies q s.provider s.model) registered ≡ true
unfolding select_provider
select_provider-supplies digest registered q preferences {s} h =
    let (found, considered, h₁) = >>=-eq-ok (consider_all q preferences registered ([], [])) _ h in
    best found.0 (sort better found.1)
      (sort-All better (IsOffer q registered) found.1 (
        consider_all-All q preferences registered registered ([], []) considered
          (All-IsListed registered) tt))
      h₁
  where
    best :
        (excluded : Dict String) (cs : List Candidate)
        → All (IsOffer q registered) cs
        → chosen digest excluded cs ≡ ok s
        → any (supplies q s.provider s.model) registered ≡ true
    best excluded [] a e = absurd (cc)
    best excluded (c ∷ cs) (offer, a) e =
        subst (λ (v : String × String). any (supplies q v.0 v.1) registered ≡ true)
          {x = (c.provider, c.model)} {y = (s.provider, s.model)} (cc (e)) offer
