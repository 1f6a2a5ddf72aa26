-- ===== src/Provider/Selection/Total.antt =====
-- The selector finds a provider whenever there is one.
use pasi_engineering_workspa.Prelude.{
  ℤ, ◌≡◌, refl, sym, ap, ◌∙◌, Bool, true, false, not, ◌||◌, ◌&&◌, String, Result, ok, err, Option,
  none, some, List, [], ◌∷◌, ◌++◌, keep, any, is_empty, All, arith, Option-cases, ◌⊎◌, inl, inr,
}
use pasi_engineering_workspa.Text.{elem}
use pasi_engineering_workspa.Text.Order.{leb_text}
use pasi_engineering_workspa.Dict.{Dict, put}
use pasi_engineering_workspa.Sort.{insert, sort}
use pasi_engineering_workspa.Planning.Dependency.Laws.{is_empty-sort}
use pasi_engineering_workspa.Planning.Selection.{head}
use pasi_engineering_workspa.Provider.{ProviderCapability}
use pasi_engineering_workspa.Provider.Selection.Laws.{meets, is_none, unmet-meets, none_of}
use pasi_engineering_workspa.Provider.Selection.{
  ProviderRequirements, SelectionError, unmet, best_model, Candidate, preference_of, consider,
  consider_all, better, ProviderSelection, chosen, select_provider,
}

abbrev pub is_rated : Option ℤ → Bool
is_rated none = false
is_rated (some _) = true

-- The declaration meets the requirements, and the preference for its provider is an integer.
abbrev pub serves : ProviderRequirements → Dict (Option ℤ) → ProviderCapability → Bool
serves q preferences c = meets q c && is_rated (preference_of preferences c.provider)

best_model-some :
    (q : ProviderRequirements) (c : ProviderCapability)
    → is_empty c.models ≡ false
    → (m : String) × (best_model q c ≡ some m)
unfolding best_model
best_model-some q c h = go (keep (λ v. elem v c.models) q.preferred_models)
  where
    first : (xs : List String) → is_empty xs ≡ false → (m : String) × (head xs ≡ some m)
    first [] e = absurd (cc)
    first (x ∷ xs) e = (x, refl)

    go :
        (kept : List String)
        → (m : String) × ((elim kept [ n ∷ _ ↦ some n | [] ↦ head (sort leb_text c.models) ])
            ≡ some m)
    go [] = first (sort leb_text c.models) (is_empty-sort c.models ∙ h)
    go (n ∷ rest) = (n, refl)

-- The round returns, and leaves no candidates only where there were none and this is none.
abbrev Round :
    ProviderRequirements
    → Dict (Option ℤ)
    → Bool
    → Dict String × List Candidate
    → Result SelectionError (Dict String × List Candidate)
    → Type 0
Round q preferences serving made result =
    (next : Dict String × List Candidate) × (result ≡ ok next)
    × (is_empty next.1 ≡ (is_empty made.1 && not serving))

is_empty-end : (cs : List Candidate) (a : Candidate) → is_empty (cs ++ (a ∷ [])) ≡ false
is_empty-end [] a = refl
is_empty-end (c ∷ cs) a = refl

and_true : (b : Bool) → b ≡ (b && true)
and_true b = ground arith

consider-Round :
    (q : ProviderRequirements) (preferences : Dict (Option ℤ)) (c : ProviderCapability)
    (excluded : Dict String) (candidates : List Candidate)
    → is_empty c.models ≡ false
    → Round q preferences
        (serves q preferences c)
        (excluded, candidates)
        (consider q preferences c (excluded, candidates))
unfolding consider
consider-Round q preferences c excluded candidates h = elim (Option-cases (unmet q c)) [
  | inr (reason, e) ↦
      let lacking : meets q c ≡ false = sym (unmet-meets q c) ∙ (unfold is_none in rw e refl) in
      (
        (put c.provider reason excluded, candidates),
        rw (consider, e) refl,
        rw lacking (and_true (is_empty candidates)),
      )
  | inl fine ↦
      let meeting : meets q c ≡ true = sym (unmet-meets q c) ∙ none_of (unmet q c) fine in
      let (model, found) = best_model-some q c h in
      elim (Option-cases (preference_of preferences c.provider)) [
        | inl bad ↦ (
          (put c.provider "invalid advisory preference" excluded, candidates),
          rw (consider, fine, found, bad) refl,
          rw (meeting, bad) (and_true (is_empty candidates)),
        )
        | inr (rank, rated) ↦
            let new : Candidate = record { provider = c.provider; model = model; rank = rank } in
            (
              (excluded, candidates ++ (new ∷ [])),
              rw (consider, fine, found, rated) refl,
              rw (meeting, rated) (is_empty-end candidates new ∙ and_false (is_empty candidates)),
            )
      ]
]
  where
    and_false : (b : Bool) → false ≡ (b && false)
    and_false b = ground arith

consider_all-Round :
    (q : ProviderRequirements) (preferences : Dict (Option ℤ)) (cs : List ProviderCapability)
    (made : Dict String × List Candidate)
    → All (λ c. is_empty c.models ≡ false) cs
    → Round q preferences (any (serves q preferences) cs) made (consider_all q preferences cs made)
unfolding consider_all any
consider_all-Round q preferences [] made h = (made, refl, and_true (is_empty made.1))
consider_all-Round q preferences (c ∷ cs) made (h, hs) =
    let (next, now, e) = consider-Round q preferences c made.0 made.1 h in
    let (after, later, e') = consider_all-Round q preferences cs next hs in
    (after, rw now later, e' ∙ ap (λ b. b && not (any (serves q preferences) cs)) e ∙ both _ _ _)
  where
    both : (a s t : Bool) → ((a && not s) && not t) ≡ (a && not (s || t))
    both a s t = ground arith

is_empty-sort_candidates : (cs : List Candidate) → is_empty (sort better cs) ≡ is_empty cs
unfolding sort insert
is_empty-sort_candidates [] = refl
is_empty-sort_candidates (c ∷ cs) = go (sort better cs)
  where
    go : (ds : List Candidate) → is_empty (insert better c ds) ≡ false
    go [] = refl
    go (d ∷ ds) = ground arith

flip_not : (b a : Bool) → b ≡ not a → a ≡ not b
flip_not b a h = ground arith

-- Where every declaration has a model, a provider is selected exactly where a registered one meets
-- the requirements and its preference is an integer, and otherwise the selector says that there is
-- none.
pub select_provider_decides :
    (digest : String) (registered : List ProviderCapability) (q : ProviderRequirements)
    (preferences : Dict (Option ℤ))
    → All (λ c. is_empty c.models ≡ false) registered
    → ((any (serves q preferences) registered ≡ true)
        × ((s : ProviderSelection) × (select_provider digest registered q preferences ≡ ok s)))
      ⊎ ((any (serves q preferences) registered ≡ false)
          × (select_provider digest registered q preferences ≡ err SelectionError.no_provider))
unfolding select_provider
select_provider_decides digest registered q preferences h =
    let (found, considered, e) = consider_all-Round q preferences registered ([], []) h in
    go found.0 (sort better found.1) (is_empty-sort_candidates found.1 ∙ e)
      (rw (select_provider, considered) refl)
  where
    go :
        (excluded : Dict String) (ranked : List Candidate)
        → is_empty ranked ≡ not (any (serves q preferences) registered)
        → select_provider digest registered q preferences ≡ chosen digest excluded ranked
        → ((any (serves q preferences) registered ≡ true)
            × ((s : ProviderSelection) × (select_provider digest registered q preferences ≡ ok s)))
          ⊎ ((any (serves q preferences) registered ≡ false)
              × (select_provider digest registered q preferences ≡ err SelectionError.no_provider))
    go excluded [] e r = inr (flip_not true _ e, r)
    go excluded (c ∷ cs) e r = inl (flip_not false _ e, (_, r))
