-- ===== src/Provider/Fallback.antt =====
-- `BoundedFallbackOrchestrator` and its store of src/pasi/providers/fallback.py. The table goes from
-- `idempotency_key` to the decision, whose text of JSON is read back as it was. What the health store
-- has last seen of a provider is an argument, and so is the digest of a list of declarations.
pub mod Loop
pub mod Laws
pub mod Repeats
use pasi_engineering_workspa.Prelude.{
  ℤ, pos, eqb_ℤ, ltb_ℤ, leb_ℤ, Bool, true, false, not, ◌||◌, ◌&&◌, String, str_eq, Result, ok, err,
  raise_if, map_err, ◌>>=◌, ◌>>◌, Option, none, some, List, [], ◌∷◌, keep, is_empty, if◌then◌else◌,
}
use pasi_engineering_workspa.Text.{strip, is_blank, elem}
use pasi_engineering_workspa.Dict.{Dict, lookup, put}
use pasi_engineering_workspa.Provider.{ProviderCapability}
use pasi_engineering_workspa.Provider.Selection.{
  ProviderRequirements, SelectionError, ProviderSelection, select_provider,
}

pub record FallbackDecision : Type 0 where
  pub operation_id : String
  pub idempotency_key : String
  pub attempt : ℤ
  pub provider : String
  pub model : String
  pub reason : String
  pub registry_digest : String
  pub health_classification : String
  pub previous_provider : String
  pub selected_at : String

-- The messages of `FallbackError`, and what the selector raises.
pub data FallbackError : Type 0 where
  bad_budget over_budget other_operation other_decision : FallbackError
  missing_identity bad_attempt : FallbackError
  no_providers : (last_error : String) → FallbackError
  selection : SelectionError → FallbackError

-- `__post_init__`
unfoldable pub check_decision : FallbackDecision → Result FallbackError (Unit {0})
check_decision d = do
  raise_if (is_blank (strip d.operation_id) || is_blank (strip d.idempotency_key)) missing_identity
  raise_if (leb_ℤ d.attempt (pos 0)) bad_attempt

-- Equality of two decisions as dataclasses
unfoldable pub decision_eq : FallbackDecision → FallbackDecision → Bool
decision_eq a b =
    str_eq a.operation_id b.operation_id
    && str_eq a.idempotency_key b.idempotency_key
    && eqb_ℤ a.attempt b.attempt
    && str_eq a.provider b.provider
    && str_eq a.model b.model
    && str_eq a.reason b.reason
    && str_eq a.registry_digest b.registry_digest
    && str_eq a.health_classification b.health_classification
    && str_eq a.previous_provider b.previous_provider
    && str_eq a.selected_at b.selected_at

abbrev pub Decisions : Type 0
Decisions = Dict FallbackDecision

-- `record`
unfoldable pub record_decision :
    FallbackDecision → Decisions → Result FallbackError (Decisions × FallbackDecision)
unfolding decision_eq
record_decision d table = elim (lookup d.idempotency_key table) [
  | some existing ↦
      if not (decision_eq existing d) then err other_decision else ok (table, existing)
  | none ↦ ok (put d.idempotency_key d table, d)
]

-- `BoundedFallbackOrchestrator.__init__`
unfoldable pub check_budget : ℤ → Result FallbackError (Unit {0})
check_budget max_failovers =
    raise_if (leb_ℤ max_failovers (pos 0) || ltb_ℤ (pos 10) max_failovers) bad_budget

-- `health.latest(provider).classification`, where there is a snapshot
abbrev pub Health : Type 0
Health = Dict String

abbrev pub is_unavailable : Health → String → Bool
is_unavailable health provider = elim (lookup provider health) [
  | none ↦ false
  | some classification ↦ str_eq classification "unavailable"
]

-- The first loop over the registry: the excluded providers and the last error, which names the last
-- provider found unavailable and is empty before.
unfoldable pub exclude_unavailable :
    Health → List ProviderCapability → List String × String → List String × String
unfolding elem
exclude_unavailable health [] found = found
exclude_unavailable health (c ∷ cs) (excluded, last_error) = exclude_unavailable health cs (
    if not (elem c.provider excluded) && is_unavailable health c.provider
    then (c.provider ∷ excluded, c.provider)
    else (excluded, last_error))

-- `{provider: rank for … if provider not in excluded}`
unfoldable pub filtered : List String → Dict (Option ℤ) → Dict (Option ℤ)
filtered excluded preferences =
    keep (λ (e : String × Option ℤ). not (elem e.0 excluded)) preferences

-- The arguments of `choose`.
pub record FallbackRequest : Type 0 where
  pub operation_id : String
  pub idempotency_key : String
  pub attempt : ℤ
  pub requirements : ProviderRequirements
  pub failed_provider : String
  pub excluded_providers : List String
  pub advisory_preferences : Dict (Option ℤ)

-- The decision that `choose` builds of the selection
abbrev pub decision_for : String → Health → FallbackRequest → ProviderSelection → FallbackDecision
decision_for now health q selected = record {
  operation_id = q.operation_id;
  idempotency_key = q.idempotency_key;
  attempt = q.attempt;
  provider = selected.provider;
  model = selected.model;
  reason = if not (is_blank q.failed_provider) then "primary_unavailable" else "provider_failure";
  registry_digest = selected.registry_digest;
  health_classification = elim (lookup selected.provider health) [ none ↦ "unknown" | some c ↦ c ];
  previous_provider = q.failed_provider;
  selected_at = now;
}

-- The earlier decision of the key, where there is one and it is of this operation
abbrev pub repeat_or :
    FallbackRequest
    → Decisions
    → Result FallbackError (Decisions × FallbackDecision)
    → Option FallbackDecision
    → Result FallbackError (Decisions × FallbackDecision)
repeat_or q table chosen none = chosen
repeat_or q table chosen (some prior) =
    if not (str_eq prior.operation_id q.operation_id)
    then err other_operation
    else ok (table, prior)

module _ (digest : List ProviderCapability → String) (max_failovers : ℤ) where
  -- The part of `choose` behind the test for an earlier decision
  unfoldable pub choose_new :
      String
      → List ProviderCapability
      → Health
      → FallbackRequest
      → Decisions
      → Result FallbackError (Decisions × FallbackDecision)
  unfolding exclude_unavailable filtered record_decision check_decision
  choose_new now registered health q table = do
    let found = exclude_unavailable health registered (q.failed_provider ∷ q.excluded_providers, "")
    let candidates = keep (λ (c : ProviderCapability). not (elem c.provider found.0)) registered
    raise_if (is_empty candidates) (no_providers found.1)
    selected ← map_err selection (
        select_provider (digest candidates) candidates q.requirements
          (filtered found.0 q.advisory_preferences))
    let decision = decision_for now health q selected
    check_decision decision
    record_decision decision table

  -- `choose`
  unfoldable pub choose :
      String
      → List ProviderCapability
      → Health
      → FallbackRequest
      → Decisions
      → Result FallbackError (Decisions × FallbackDecision)
  unfolding choose_new
  choose now registered health q table = do
    raise_if (leb_ℤ q.attempt (pos 0) || ltb_ℤ max_failovers q.attempt) over_budget
    repeat_or q table (choose_new now registered health q table) (lookup q.idempotency_key table)
