-- ===== src/Provider/Tests.antt =====
-- Tests of registry.py, selection.py and fallback.py of src/pasi/providers at small inputs.
use pasi_engineering_workspa.Prelude.{
  pos, ◌≡◌, refl, some, none, String, ok, err, List, [], ◌∷◌, keep,
}
use pasi_engineering_workspa.Text.{elem, strip}
use pasi_engineering_workspa.Dict.{lookup, put}
use pasi_engineering_workspa.Sort.{sort}
use pasi_engineering_workspa.Planning.Dependency.{dedup}
use pasi_engineering_workspa.Provider.{ProviderCapability, list_providers}
use pasi_engineering_workspa.Provider.Selection.{
  ProviderRequirements, ProviderSelection, unmet, missing_capabilities, best_model, preference_of,
  consider, consider_all, select_provider,
}
use pasi_engineering_workspa.Provider.Fallback.{
  FallbackDecision, FallbackError, FallbackRequest, Decisions, Health, choose, choose_new,
  check_budget, exclude_unavailable, filtered, record_decision, check_decision,
}
use pasi_engineering_workspa.Provider.Fallback.Repeats.{Uses, table_after, choose_repeats}

abbrev provider : String → List String → List String → ProviderCapability
provider name models capabilities = record {
  provider = name;
  registry_version = pos 1;
  models = models;
  capabilities = capabilities;
  context_window_tokens = pos 9;
  max_output_tokens = pos 5;
  configuration_provenance = "test";
  metadata = [];
}

abbrev coder : ProviderCapability
coder = provider "b" ("m2" ∷ "m1" ∷ []) ("code" ∷ "chat" ∷ [])

abbrev talker : ProviderCapability
talker = provider "a" ("m1" ∷ []) ("chat" ∷ [])

listed : list_providers (("b", coder) ∷ ("a", talker) ∷ []) ≡ talker ∷ coder ∷ []
unfolding list_providers sort
listed = refl

abbrev wanted : ProviderRequirements
wanted = record {
  required_capabilities = "code" ∷ [];
  min_context_window_tokens = pos 8;
  max_output_tokens = pos 5;
  preferred_models = "m3" ∷ [];
}

abbrev taken : ProviderSelection
taken = record {
  provider = "b";
  model = "m1";
  registry_digest = "d";
  eligible = "b" ∷ [];
  excluded_reasons = ("a", "missing capabilities: code") ∷ [];
}

takes : select_provider "d" (talker ∷ coder ∷ []) wanted [] ≡ ok taken
unfolding select_provider consider_all consider unmet missing_capabilities best_model preference_of
    sort dedup keep elem lookup put
takes = refl

abbrev failed_over : FallbackRequest
failed_over = record {
  operation_id = "o";
  idempotency_key = "k";
  attempt = pos 1;
  requirements = wanted;
  failed_provider = "a";
  excluded_providers = [];
  advisory_preferences = ("b", some (pos 1)) ∷ ("z", some (pos 7)) ∷ [];
}

abbrev seen : Health
seen = ("z", "unavailable") ∷ ("b", "healthy") ∷ []

abbrev spare : ProviderCapability
spare = provider "z" ("m1" ∷ []) ("code" ∷ [])

abbrev offered : List ProviderCapability
offered = talker ∷ coder ∷ spare ∷ []

abbrev digest : List ProviderCapability → String
digest cs = "d"

abbrev fallback : FallbackDecision
fallback = record {
  operation_id = "o";
  idempotency_key = "k";
  attempt = pos 1;
  provider = "b";
  model = "m1";
  reason = "primary_unavailable";
  registry_digest = "d";
  health_classification = "healthy";
  previous_provider = "a";
  selected_at = "t";
}

falls_back :
    choose digest (pos 2) "t" offered seen failed_over [] ≡ ok (("k", fallback) ∷ [], fallback)
unfolding choose choose_new exclude_unavailable filtered record_decision check_decision
    select_provider consider_all consider unmet missing_capabilities best_model preference_of sort
    dedup keep elem lookup put strip
falls_back = refl

none_left :
    choose digest (pos 2) "t" (talker ∷ spare ∷ []) seen failed_over []
    ≡ err (FallbackError.no_providers "z")
unfolding choose choose_new exclude_unavailable keep elem lookup
none_left = refl

no_more_than_ten : check_budget (pos 11) ≡ err FallbackError.bad_budget
unfolding check_budget
no_more_than_ten = refl

-- Another client records a decision in between.
abbrev other_decision : FallbackDecision
other_decision = record fallback { operation_id = "p"; idempotency_key = "l" }

abbrev both : Decisions
both = ("k", fallback) ∷ ("l", other_decision) ∷ []

other_recorded :
    both
    ≡ table_after (record_decision other_decision (("k", fallback) ∷ [])) (("k", fallback) ∷ [])
unfolding record_decision lookup put
other_recorded = refl

choose_repeats_example : choose digest (pos 2) "u" [] [] failed_over both ≡ ok (both, fallback)
choose_repeats_example =
    choose_repeats digest (pos 2) "t" offered seen failed_over []
      {made = (("k", fallback) ∷ [], fallback)} "u" [] [] failed_over falls_back
      (Uses.recorded other_decision Uses.unused other_recorded) refl refl refl

unused : lookup {V = FallbackDecision} "k" [] ≡ none
unfolding lookup
unused = refl
