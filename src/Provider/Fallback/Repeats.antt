-- ===== src/Provider/Fallback/Repeats.antt =====
-- A decision of src/pasi/providers/fallback.py stays in the store, whatever other clients record.
use pasi_engineering_workspa.Prelude.{
  ℤ, pos, ltb_ℤ, leb_ℤ, ◌≡◌, refl, sym, ap, subst, ◌∙◌, inl, inr, false, ◌||◌, String, str_eq,
  Result, ok, err, raise_if->>=-eq-ok, raise_if-false, none, some, Option-cases, List, ok-injective,
  Bool-cases,
}
use pasi_engineering_workspa.Dict.{lookup, put, lookup-put_other, str_eq-false_of_lookup}
use pasi_engineering_workspa.Provider.{ProviderCapability}
use pasi_engineering_workspa.Provider.Fallback.{
  FallbackDecision, FallbackError, FallbackRequest, Decisions, Health, decision_eq, record_decision,
  decision_for, choose_new, repeat_or, choose,
}
use pasi_engineering_workspa.Provider.Fallback.Laws.{
  Stands, choose-Stands, choose_new-selected, repeat_or_same, repeat_or-eq-ok,
}

-- The table after a call: a call that raises leaves it as it was.
abbrev pub table_after : Result FallbackError (Decisions × FallbackDecision) → Decisions → Decisions
table_after (err raised) table = table
table_after (ok made) table = made.0

-- What stands in the table stands after a call that keeps it.
table_after-lookup :
    (call : Result FallbackError (Decisions × FallbackDecision)) (table : Decisions) (key : String)
    (d : FallbackDecision)
    → ((made : Decisions × FallbackDecision) → call ≡ ok made → lookup key made.0 ≡ some d)
    → lookup key table ≡ some d
    → lookup key (table_after call table) ≡ some d
table_after-lookup (err raised) table key d kept there = there
table_after-lookup (ok made) table key d kept there = kept made refl

put_free :
    (new d : FallbackDecision) (key id : String) (table : Decisions)
    → lookup id table ≡ none
    → lookup key table ≡ some d
    → lookup key (put id new table) ≡ some d
put_free new d key id table free there =
    lookup-put_other id key new table (str_eq-false_of_lookup id key table free there) ∙ there

record_decision-lookup :
    (new : FallbackDecision) (table : Decisions) (key : String) (d : FallbackDecision)
    {made : Decisions × FallbackDecision}
    → record_decision new table ≡ ok made
    → lookup key table ≡ some d
    → lookup key made.0 ≡ some d
unfolding record_decision
record_decision-lookup new table key d h there =
    elim (Option-cases (lookup new.idempotency_key table)) [
      | inl free ↦
          subst (λ (m : Decisions × FallbackDecision). lookup key m.0 ≡ some d)
            (ok-injective (rw (record_decision, free) at h))
            (put_free new d key new.idempotency_key table free there)
      | inr (existing, taken) ↦ elim (Bool-cases (decision_eq existing new)) [
        | inl same ↦
            subst (λ (m : Decisions × FallbackDecision). lookup key m.0 ≡ some d)
              (ok-injective (rw (record_decision, taken, same) at h)) there
        | inr other ↦ absurd (cc (rw (record_decision, taken, other) at h))
      ]
    ]

module _ (digest : List ProviderCapability → String) where
  choose-lookup :
      (max_failovers : ℤ) (now : String) (registered : List ProviderCapability) (health : Health)
      (q : FallbackRequest) (table : Decisions) (key : String) (d : FallbackDecision)
      {made : Decisions × FallbackDecision}
      → choose digest max_failovers now registered health q table ≡ ok made
      → lookup key table ≡ some d
      → lookup key made.0 ≡ some d
  unfolding choose
  choose-lookup max_failovers now registered health q table key d {made} h there =
      let chosen = choose_new digest max_failovers now registered health q table in
      let (_, h₁) =
        raise_if->>=-eq-ok _ _ (repeat_or q table chosen (lookup q.idempotency_key table)) h in
      elim (Option-cases (lookup q.idempotency_key table)) [
        | inl e ↦
            let (s, _, same) =
              choose_new-selected digest max_failovers now registered health q table e
                (subst (λ o. repeat_or q table chosen o ≡ ok made) e h₁) in
            subst (λ (m : Decisions × FallbackDecision). lookup key m.0 ≡ some d) same
              (put_free (decision_for now health q s) d key q.idempotency_key table e there)
        | inr (prior, e) ↦
            let (o, same) =
              repeat_or-eq-ok q table chosen prior
                (subst (λ o. repeat_or q table chosen o ≡ ok made) e h₁) in
            subst (λ (m : Decisions × FallbackDecision). lookup key m.0 ≡ some d) same there
      ]

  -- Calls of any clients, one after the other and however they end: of `choose`, each with its own
  -- budget, and of the store's `record`
  pub data Uses (s : Decisions) : Decisions → Type 0 where
    unused : Uses s s
    chosen :
        {t u : Decisions} (max_failovers : ℤ) (now : String) (registered : List ProviderCapability)
        (health : Health) (q : FallbackRequest)
        → Uses s t
        → u ≡ table_after (choose digest max_failovers now registered health q t) t
        → Uses s u
    recorded :
        {t u : Decisions} (d : FallbackDecision)
        → Uses s t
        → u ≡ table_after (record_decision d t) t
        → Uses s u

  Uses-lookup :
      {s t : Decisions} (key : String) (d : FallbackDecision)
      → Uses s t
      → lookup key s ≡ some d
      → lookup key t ≡ some d
  Uses-lookup key d unused there = there
  Uses-lookup key d (chosen {t} max_failovers now registered health q uses same) there =
      let before = Uses-lookup key d uses there in
      subst (λ u. lookup key u ≡ some d) (sym same)
        (table_after-lookup (choose digest max_failovers now registered health q t) t key d
          (λ made e. choose-lookup max_failovers now registered health q t key d e before) before)
  Uses-lookup key d (recorded {t} new uses same) there =
      let before = Uses-lookup key d uses there in
      subst (λ u. lookup key u ≡ some d) (sym same)
        (table_after-lookup (record_decision new t) t key d
          (λ made e. record_decision-lookup new t key d e before) before)

  module _ (max_failovers : ℤ) where
    -- Once `choose` has returned a decision, every later call within its budget with the same key and
    -- the same operation returns this decision and leaves the table as it is, whatever `choose` and
    -- `record` were called with in between, and whatever the registry, the health store and the other
    -- arguments have become.
    pub choose_repeats :
        (now : String) (registered : List ProviderCapability) (health : Health)
        (q : FallbackRequest) (table : Decisions) {made : Decisions × FallbackDecision}
        (now₂ : String) (registered₂ : List ProviderCapability) (health₂ : Health)
        (later : FallbackRequest) {u : Decisions}
        → choose digest max_failovers now registered health q table ≡ ok made
        → Uses made.0 u
        → later.idempotency_key ≡ q.idempotency_key
        → later.operation_id ≡ q.operation_id
        → (leb_ℤ later.attempt (pos 0) || ltb_ℤ max_failovers later.attempt) ≡ false
        → choose digest max_failovers now₂ registered₂ health₂ later u ≡ ok (u, made.1)
    unfolding choose Stands
    choose_repeats now registered health q table {made} now₂ registered₂ health₂ later {u} h uses
          key operation within =
        let (there, same) = choose-Stands digest max_failovers now registered health q table h in
        let chosen = choose_new digest max_failovers now₂ registered₂ health₂ later u in
        raise_if-false _ FallbackError.over_budget
          (repeat_or later u chosen (lookup later.idempotency_key u)) within
        ∙ ap (repeat_or later u chosen)
            (ap (λ k. lookup k u) key ∙ Uses-lookup q.idempotency_key made.1 uses there)
        ∙ repeat_or_same later u chosen made.1 (ap (str_eq made.1.operation_id) operation ∙ same)
