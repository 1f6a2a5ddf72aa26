-- ===== src/Provider/Selection.antt =====
-- `DeterministicProviderSelector` of src/pasi/providers/selection.py. The digest of the registry is
-- an argument. A preference that is no integer is `none`.
pub mod Laws
pub mod Total
use Prim.Native.String.{◌++◌ as text_append}
use pasi_engineering_workspa.Prelude.{
  ℤ, pos, eqb_ℤ, ltb_ℤ, leb_ℤ, Bool, true, false, not, ◌||◌, ◌&&◌, String, str_eq, Result, ok, err,
  raise_if, ◌>>=◌, ◌>>◌, Option, none, some, List, [], ◌∷◌, ◌++◌, map, keep, is_empty,
  if◌then◌else◌,
}
use pasi_engineering_workspa.Text.{elem}
use pasi_engineering_workspa.Text.Order.{leb_text}
use pasi_engineering_workspa.Dict.{Dict, lookup, put}
use pasi_engineering_workspa.Sort.{sort}
use pasi_engineering_workspa.Planning.Dependency.{by_key, dedup}
use pasi_engineering_workspa.Planning.Selection.{head}
use pasi_engineering_workspa.Provider.{ProviderCapability}

pub record ProviderRequirements : Type 0 where
  pub required_capabilities : List String
  pub min_context_window_tokens : ℤ
  pub max_output_tokens : ℤ
  pub preferred_models : List String

-- `no_model` is the `IndexError` of a declaration without models.
pub data SelectionError : Type 0 where
  no_capability bad_window bad_output no_provider no_model stale_registry : SelectionError

-- `ProviderRequirements.__post_init__`
unfoldable pub check_requirements : ProviderRequirements → Result SelectionError (Unit {0})
check_requirements q = do
  raise_if (is_empty q.required_capabilities) no_capability
  raise_if (leb_ℤ q.min_context_window_tokens (pos 0)) bad_window
  raise_if (leb_ℤ q.max_output_tokens (pos 0)) bad_output

-- `", ".join(texts)`
abbrev join_comma : List String → String
join_comma [] = ""
join_comma (x ∷ []) = x
join_comma (x ∷ y ∷ xs) = text_append x (text_append ", " (join_comma (y ∷ xs)))

-- `sorted(set(required) - set(capabilities))`
unfoldable pub missing_capabilities : ProviderRequirements → ProviderCapability → List String
missing_capabilities q c =
    sort leb_text (dedup (keep (λ v. not (elem v c.capabilities)) q.required_capabilities))

-- Why a provider does not meet the requirements.
unfoldable pub unmet : ProviderRequirements → ProviderCapability → Option String
unfolding missing_capabilities
unmet q c =
    if not (is_empty (missing_capabilities q c))
    then some (text_append "missing capabilities: " (join_comma (missing_capabilities q c)))
    else if ltb_ℤ c.context_window_tokens q.min_context_window_tokens
    then some "context window below requirement"
    else if ltb_ℤ c.max_output_tokens q.max_output_tokens
    then some "max output tokens below requirement"
    else none

-- `preferred[0] if preferred else sorted(capability.models)[0]`
unfoldable pub best_model : ProviderRequirements → ProviderCapability → Option String
best_model q c = elim (keep (λ m. elem m c.models) q.preferred_models) [
  | m ∷ _ ↦ some m
  | [] ↦ head (sort leb_text c.models)
]

pub record Candidate : Type 0 where
  pub provider : String
  pub model : String
  pub rank : ℤ

-- `preferences.get(provider_id, 0)`
unfoldable pub preference_of : Dict (Option ℤ) → String → Option ℤ
preference_of preferences id = elim (lookup id preferences) [ none ↦ some (pos 0) | some p ↦ p ]

-- One round of the loop over the providers.
unfoldable pub consider :
    ProviderRequirements
    → Dict (Option ℤ)
    → ProviderCapability
    → Dict String × List Candidate
    → Result SelectionError (Dict String × List Candidate)
unfolding unmet best_model preference_of
consider q preferences c (excluded, candidates) = elim (unmet q c) [
  | some reason ↦ ok (put c.provider reason excluded, candidates)
  | none ↦ elim (best_model q c) [
    | none ↦ err no_model
    | some model ↦ elim (preference_of preferences c.provider) [
      | none ↦ ok (put c.provider "invalid advisory preference" excluded, candidates)
      | some rank ↦ ok (
        excluded,
        candidates ++ (record { provider = c.provider; model = model; rank = rank } ∷ []),
      )
    ]
  ]
]

unfoldable pub consider_all :
    ProviderRequirements
    → Dict (Option ℤ)
    → List ProviderCapability
    → Dict String × List Candidate
    → Result SelectionError (Dict String × List Candidate)
unfolding consider
consider_all q preferences [] made = ok made
consider_all q preferences (c ∷ cs) made = do
  next ← consider q preferences c made
  consider_all q preferences cs next

-- The key `(-rank, provider, model)`
abbrev pub better : Candidate → Candidate → Bool
better a b =
    ltb_ℤ b.rank a.rank
    || (eqb_ℤ a.rank b.rank
        && (if str_eq a.provider b.provider
            then leb_text a.model b.model
            else leb_text a.provider b.provider))

pub record ProviderSelection : Type 0 where
  pub provider : String
  pub model : String
  pub registry_digest : String
  pub eligible : List String
  pub excluded_reasons : Dict String

-- What `select` returns of the ranked candidates.
abbrev chosen : String → Dict String → List Candidate → Result SelectionError ProviderSelection
chosen digest excluded [] = err no_provider
chosen digest excluded (best ∷ others) = ok (record {
  provider = best.provider;
  model = best.model;
  registry_digest = digest;
  eligible = best.provider ∷ map (λ c. c.provider) others;
  excluded_reasons = sort by_key excluded;
})

-- `select`, on what `registry.digest()` and `registry.list()` return; the ranks of the candidates and
-- the time are left out of the selection.
unfoldable pub select_provider :
    String
    → List ProviderCapability
    → ProviderRequirements
    → Dict (Option ℤ)
    → Result SelectionError ProviderSelection
unfolding consider_all
select_provider digest registered q preferences = do
  found ← consider_all q preferences registered ([], [])
  chosen digest found.0 (sort better found.1)

-- `assert_fresh`
unfoldable pub check_registry : ProviderSelection → String → Result SelectionError (Unit {0})
check_registry s current = raise_if (not (str_eq current s.registry_digest)) stale_registry
