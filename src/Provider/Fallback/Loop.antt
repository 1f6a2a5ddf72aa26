-- ===== src/Provider/Fallback/Loop.antt =====
-- The loop of `choose` over the registry: which providers it leaves.
use pasi_engineering_workspa.Prelude.{
  ◌≡◌, refl, Bool, true, false, not, ◌&&◌, String, List, [], ◌∷◌, keep, any, All, arith, Bool-cases,
  inl, inr, if◌then◌else◌,
}
use pasi_engineering_workspa.Text.{elem}
use pasi_engineering_workspa.Text.Elem.{elem_head, elem_tail}
use pasi_engineering_workspa.Provider.{ProviderCapability}
use pasi_engineering_workspa.Provider.Fallback.{
  FallbackRequest, Health, is_unavailable, exclude_unavailable,
}

-- The provider is neither the failed one, nor excluded, nor last seen unavailable.
abbrev pub is_usable : Health → FallbackRequest → ProviderCapability → Bool
is_usable health q c =
    not (elem c.provider (q.failed_provider ∷ q.excluded_providers))
    && not (is_unavailable health c.provider)

pub any_mono :
    (p r : ProviderCapability → Bool) (cs : List ProviderCapability)
    → All (λ c. p c ≡ true → r c ≡ true) cs
    → any p cs ≡ true
    → any r cs ≡ true
unfolding any
any_mono p r [] a h = cc
any_mono p r (c ∷ cs) (f, a) h = ground (arith, f, any_mono p r cs a)

pub any-keep :
    (p r : ProviderCapability → Bool) (cs : List ProviderCapability)
    → any p (keep r cs) ≡ any (λ c. p c && r c) cs
unfolding any keep
any-keep p r [] = refl
any-keep p r (c ∷ cs) = elim (Bool-cases (r c)) [
  | inl e ↦ ground (arith, e, any-keep p r cs)
  | inr e ↦ ground (arith, e, any-keep p r cs)
]

-- What the loop does with the test of a provider
abbrev excluded_after : Bool → String → List String → String → List String × String
excluded_after t y excluded last = if t then (y ∷ excluded, y) else (excluded, last)

elem-excluded_after :
    (x y : String) (excluded : List String) (last : String) (t : Bool)
    → elem x excluded ≡ true
    → elem x (excluded_after t y excluded last).0 ≡ true
elem-excluded_after x y excluded last true h = elem_tail x y excluded h
elem-excluded_after x y excluded last false h = h

pub elem-exclude_unavailable :
    (health : Health) (x : String) (cs : List ProviderCapability) (found : List String × String)
    → elem x found.0 ≡ true
    → elem x (exclude_unavailable health cs found).0 ≡ true
unfolding exclude_unavailable
elem-exclude_unavailable health x [] found h = h
elem-exclude_unavailable health x (c ∷ cs) (excluded, last) h =
    elem-exclude_unavailable health x cs _ (
      elem-excluded_after x c.provider excluded last
        (not (elem c.provider excluded) && is_unavailable health c.provider) h)

unfoldable pub IsLeft : Health → List String → ProviderCapability → Type 0
IsLeft health excluded c = is_unavailable health c.provider ≡ true → elem c.provider excluded ≡ true

elem_if_unavailable :
    (x : String) (excluded : List String) (last : String) (u : Bool)
    → u ≡ true
    → elem x (excluded_after (not (elem x excluded) && u) x excluded last).0 ≡ true
elem_if_unavailable x excluded last u h = elim (Bool-cases (elem x excluded)) [
  | inl e ↦ rw (e) e
  | inr e ↦ rw (e, h) (elem_head x excluded)
]

pub exclude_unavailable-All :
    (health : Health) (cs : List ProviderCapability) (found : List String × String)
    → All (IsLeft health (exclude_unavailable health cs found).0) cs
unfolding exclude_unavailable IsLeft
exclude_unavailable-All health [] found = tt
exclude_unavailable-All health (c ∷ cs) (excluded, last) = (
  λ u.
      elem-exclude_unavailable health c.provider cs _
        (elem_if_unavailable c.provider excluded last (is_unavailable health c.provider) u),
  exclude_unavailable-All health cs _,
)

pub is_usable_of_left :
    (health : Health) (q : FallbackRequest) (c : ProviderCapability) (excluded : List String)
    (t : Bool)
    → IsLeft health excluded c
    → (elem c.provider (q.failed_provider ∷ q.excluded_providers) ≡ true
        → elem c.provider excluded ≡ true)
    → (t && not (elem c.provider excluded)) ≡ true
    → (t && is_usable health q c) ≡ true
unfolding IsLeft
is_usable_of_left health q c excluded t unavailable first h =
    elim (Bool-cases (elem c.provider (q.failed_provider ∷ q.excluded_providers))) [
      | inl e ↦ ground (arith, first e)
      | inr e ↦ elim (Bool-cases (is_unavailable health c.provider)) [
        | inl u ↦ ground (arith, unavailable u)
        | inr u ↦ ground (arith, e, u)
      ]
    ]
