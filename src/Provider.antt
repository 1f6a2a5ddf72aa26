-- ===== src/Provider.antt =====
-- src/pasi/providers/registry.py: what a provider declares, and the registry. A row holds the
-- declaration itself, whose text of JSON is read back as it was. `Selection` is
-- src/pasi/providers/selection.py and `Fallback` is src/pasi/providers/fallback.py.
pub mod Selection
pub mod Fallback
mod Tests
use Prim.Native.String.{count}
use pasi_engineering_workspa.Prelude.{
  ℕ, ℤ, pos, eqb_ℤ, ltb_ℤ, leb_ℤ, ltb, Bool, true, false, not, ◌||◌, ◌&&◌, String, Result, ok, err,
  raise_if, ◌>>=◌, ◌>>◌, Option, none, some, List, [], ◌∷◌, map, any, is_empty, length,
}
use pasi_engineering_workspa.Text.{strip, is_blank, has_duplicates}
use pasi_engineering_workspa.Text.Order.{leb_text}
use pasi_engineering_workspa.Dict.{Dict, lookup, put}
use pasi_engineering_workspa.Sort.{sort}

pub record ProviderCapability : Type 0 where
  pub provider : String
  pub registry_version : ℤ
  pub models : List String
  pub capabilities : List String
  pub context_window_tokens : ℤ
  pub max_output_tokens : ℤ
  pub configuration_provenance : String
  pub metadata : Dict String

-- The `ProviderRegistryError`s of the constructor, and the errors of the registry.
pub data RegistryError : Type 0 where
  bad_name bad_version bad_models repeated_models : RegistryError
  too_many_capabilities blank_capability repeated_capabilities : RegistryError
  bad_tokens output_above_window no_provenance long_provenance bad_metadata : RegistryError
  duplicate_provider : RegistryError

-- `__post_init__`
unfoldable pub check_capability : ProviderCapability → Result RegistryError (Unit {0})
check_capability c = do
  raise_if (is_blank (strip c.provider) || ltb 128 (count c.provider)) bad_name
  raise_if (not (eqb_ℤ c.registry_version (pos 1))) bad_version
  raise_if (is_empty c.models || any (λ m. is_blank (strip m) || ltb 256 (count m)) c.models)
      bad_models
  raise_if (has_duplicates c.models) repeated_models
  raise_if (is_empty c.capabilities || ltb 64 (length c.capabilities)) too_many_capabilities
  raise_if (any (λ v. is_blank (strip v)) c.capabilities) blank_capability
  raise_if (has_duplicates c.capabilities) repeated_capabilities
  raise_if
      (leb_ℤ c.context_window_tokens (pos 0)
        || ltb_ℤ (pos 2000000) c.context_window_tokens
        || leb_ℤ c.max_output_tokens (pos 0)
        || ltb_ℤ (pos 200000) c.max_output_tokens)
      bad_tokens
  raise_if (leb_ℤ c.context_window_tokens c.max_output_tokens) output_above_window
  raise_if (is_blank (strip c.configuration_provenance)) no_provenance
  raise_if (ltb 1024 (count c.configuration_provenance)) long_provenance
  raise_if (any (λ (e : String × String). is_blank (strip e.0)) c.metadata) bad_metadata

abbrev pub Registry : Type 0
Registry = Dict ProviderCapability

-- `register`, of a declaration that its constructor accepted
unfoldable pub register : ProviderCapability → Registry → Result RegistryError Registry
register c registry = elim (lookup c.provider registry) [
  | some _ ↦ err duplicate_provider
  | none ↦ ok (put c.provider c registry)
]

abbrev by_provider : String × ProviderCapability → String × ProviderCapability → Bool
by_provider a b = leb_text a.0 b.0

-- `list`: `ORDER BY provider ASC`
unfoldable pub list_providers : Registry → List ProviderCapability
list_providers registry = map (λ (e : String × ProviderCapability). e.1) (sort by_provider registry)
