-- ===== src/Provider/Fallback/Laws.antt =====
-- What a fallback decision promises: it stands in the store, and its provider can be used.
use pasi_engineering_workspa.Prelude.{
  ℤ, ◌≡◌, subst, true, not, ◌&&◌, String, str_eq, eq_refl, Result, ok, >>=-eq-ok,
  raise_if->>=-eq-ok, map_err, map_err-eq-ok, none, some, List, ◌∷◌, keep, any, Bool-cases,
  Option-cases, inl, inr, ok-injective,
}
use pasi_engineering_workspa.Text.{elem}
use pasi_engineering_workspa.Dict.{lookup, put, lookup-put_self}
use pasi_engineering_workspa.Sort.{All-map}
use pasi_engineering_workspa.Provider.{ProviderCapability}
use pasi_engineering_workspa.Provider.Selection.{ProviderSelection, select_provider}
use pasi_engineering_workspa.Provider.Selection.Laws.{supplies, select_provider-supplies}
use pasi_engineering_workspa.Provider.Fallback.{
  FallbackDecision, FallbackError, FallbackRequest, Decisions, Health, record_decision,
  exclude_unavailable, filtered, check_decision, repeat_or, decision_for, choose_new, choose,
}
use pasi_engineering_workspa.Provider.Fallback.Loop.{
  any_mono, any-keep, elem-exclude_unavailable, exclude_unavailable-All, is_usable_of_left,
  is_usable,
}

pub repeat_or-eq-ok :
    (q : FallbackRequest) (table : Decisions)
    (chosen : Result FallbackError (Decisions × FallbackDecision)) (prior : FallbackDecision)
    {made : Decisions × FallbackDecision}
    → repeat_or q table chosen (some prior) ≡ ok made
    → (str_eq prior.operation_id q.operation_id ≡ true) × ((table, prior) ≡ made)
repeat_or-eq-ok q table chosen prior h =
    elim (Bool-cases (str_eq prior.operation_id q.operation_id)) [
      | inl o ↦ (o, ok-injective (rw o at h))
      | inr o ↦ absurd (cc (rw o at h))
    ]

pub repeat_or_same :
    (q : FallbackRequest) (table : Decisions)
    (chosen : Result FallbackError (Decisions × FallbackDecision)) (prior : FallbackDecision)
    → str_eq prior.operation_id q.operation_id ≡ true
    → repeat_or q table chosen (some prior) ≡ ok (table, prior)
repeat_or_same q table chosen prior h = rw h

-- The decision stands in the table for the key and the operation of the call.
unfoldable pub Stands : FallbackRequest → Decisions × FallbackDecision → Type 0
Stands q made =
    (lookup q.idempotency_key made.0 ≡ some made.1)
    × (str_eq made.1.operation_id q.operation_id ≡ true)

module _ (digest : List ProviderCapability → String) (max_failovers : ℤ) where
  pub record_decision_new :
      (d : FallbackDecision) (table : Decisions) {made : Decisions × FallbackDecision}
      → lookup d.idempotency_key table ≡ none
      → record_decision d table ≡ ok made
      → (put d.idempotency_key d table, d) ≡ made
  unfolding record_decision
  record_decision_new d table e h = ok-injective (rw (record_decision, e) at h)

  -- The selection behind a new decision
  pub choose_new-selected :
      (now : String) (registered : List ProviderCapability) (health : Health) (q : FallbackRequest)
      (table : Decisions) {made : Decisions × FallbackDecision}
      → lookup q.idempotency_key table ≡ none
      → choose_new digest max_failovers now registered health q table ≡ ok made
      → let found =
          exclude_unavailable health registered (q.failed_provider ∷ q.excluded_providers, "") in
        let left = keep (λ (c : ProviderCapability). not (elem c.provider found.0)) registered in
        (s : ProviderSelection) × (select_provider
            (digest left)
            left
            q.requirements
            (filtered found.0 q.advisory_preferences)
          ≡ ok s)
        × ((put q.idempotency_key (decision_for now health q s) table, decision_for now health q s)
            ≡ made)
  unfolding choose_new
  choose_new-selected now registered health q table e h =
      let (_, h₁) = raise_if->>=-eq-ok _ _ _ h in
      let (s, picked, h₂) = >>=-eq-ok (map_err FallbackError.selection _) _ h₁ in
      let (_, _, h₃) = >>=-eq-ok (check_decision (decision_for now health q s)) _ h₂ in
      (s, map_err-eq-ok _ _ picked, record_decision_new (decision_for now health q s) table e h₃)

  -- A decision that `choose` returned stands in the table under the key of the call, for the
  -- operation of the call.
  pub choose-Stands :
      (now : String) (registered : List ProviderCapability) (health : Health) (q : FallbackRequest)
      (table : Decisions) {made : Decisions × FallbackDecision}
      → choose digest max_failovers now registered health q table ≡ ok made
      → Stands q made
  unfolding choose Stands
  choose-Stands now registered health q table {made} h =
      let chosen = choose_new digest max_failovers now registered health q table in
      let (_, h₁) =
        raise_if->>=-eq-ok _ _ (repeat_or q table chosen (lookup q.idempotency_key table)) h in
      elim (Option-cases (lookup q.idempotency_key table)) [
        | inl e ↦
            let (s, _, same) =
              choose_new-selected now registered health q table e
                (subst (λ o. repeat_or q table chosen o ≡ ok made) e h₁) in
            subst (Stands q) same (
              lookup-put_self q.idempotency_key (decision_for now health q s) table,
              eq_refl q.operation_id,
            )
        | inr (prior, e) ↦
            let (o, same) =
              repeat_or-eq-ok q table chosen prior
                (subst (λ o. repeat_or q table chosen o ≡ ok made) e h₁) in
            subst (Stands q) same (e, o)
      ]

  -- Where the key has no decision yet, `choose` returns only a provider of which some registered
  -- declaration meets the requirements with the model returned, and this provider is neither the
  -- failed one, nor an excluded one, nor one that the health store has last seen unavailable.
  pub choose-is_usable :
      (now : String) (registered : List ProviderCapability) (health : Health) (q : FallbackRequest)
      (table : Decisions) {made : Decisions × FallbackDecision}
      → lookup q.idempotency_key table ≡ none
      → choose digest max_failovers now registered health q table ≡ ok made
      → any
          (λ c. supplies q.requirements made.1.provider made.1.model c && is_usable health q c)
          registered
        ≡ true
  unfolding choose
  choose-is_usable now registered health q table {made} e h =
      let chosen = choose_new digest max_failovers now registered health q table in
      let (_, h₁) =
        raise_if->>=-eq-ok _ _ (repeat_or q table chosen (lookup q.idempotency_key table)) h in
      let (s, picked, same) =
        choose_new-selected now registered health q table e
          (subst (λ o. repeat_or q table chosen o ≡ ok made) e h₁) in
      let start : List String × String = (q.failed_provider ∷ q.excluded_providers, "") in
      let found = exclude_unavailable health registered start in
      let left = keep (λ (c : ProviderCapability). not (elem c.provider found.0)) registered in
      let offered =
        select_provider-supplies (digest left) left q.requirements
          (filtered found.0 q.advisory_preferences) picked in
      subst
        (λ (m : Decisions × FallbackDecision).
          any (λ c. supplies q.requirements m.1.provider m.1.model c && is_usable health q c)
            registered
          ≡ true)
        same
        (any_mono
          (λ c. supplies q.requirements s.provider s.model c && not (elem c.provider found.0))
          (λ c. supplies q.requirements s.provider s.model c && is_usable health q c) registered
          (All-map registered
            (λ c unavailable.
              is_usable_of_left health q c found.0 (supplies q.requirements s.provider s.model c)
                unavailable (elem-exclude_unavailable health c.provider registered start))
            (exclude_unavailable-All health registered start))
          (subst (λ b. b ≡ true)
            (any-keep (supplies q.requirements s.provider s.model)
              (λ c. not (elem c.provider found.0)) registered)
            offered))
