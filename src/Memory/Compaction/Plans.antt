-- ===== src/Memory/Compaction/Plans.antt =====
-- What `plan` of src/pasi/core/memory_compaction.py returns.
use mathlib.Core.List.{Perm}
use mathlib.Core.List.Perm
use pasi_engineering_workspa.Prelude.{
  ◌≡◌, refl, ap, subst, ◌∙◌, inl, inr, Bool, true, false, ◌||◌, String, str_eq, eq_iff, ok,
  >>=-eq-ok, raise_if->>=-eq-ok, ok-injective, Bool-cases, ltb, length, List, [], ◌∷◌, map, keep,
  All, arith,
}
use pasi_engineering_workspa.Text.{elem, subset}
use pasi_engineering_workspa.Text.Order.{leb_text}
use pasi_engineering_workspa.Text.Elem.{elem-append, elem-sort, subset_of_elem}
use pasi_engineering_workspa.Sort.{sort, sort-perm, sort-All}
use pasi_engineering_workspa.Memory.{MemoryRecord}
use pasi_engineering_workspa.Memory.Compaction.{
  CompactionGroup, GroupKey, Groups, confident_first, group_before, set_of, all_refs, plan_ordered,
  plan_groups, group_records, plan,
}
use pasi_engineering_workspa.Memory.Compaction.Groups.{belongs, group_records-keep}

elem-repeated :
    (x y : String) (ys : List String) → elem y ys ≡ true → elem x ys ≡ (str_eq x y || elem x ys)
elem-repeated x y ys h = elim (Bool-cases (str_eq x y)) [
  | inl e ↦ let name : x ≡ y = ground (arith, eq_iff x y) in rw e (ap (λ z. elem z ys) name ∙ h)
  | inr e ↦ rw e refl
]

pub either : (a b : Bool) → b ≡ true → (a || b) ≡ true
either a b h = ground arith

pub elem-set_of : (x : String) (xs : List String) → elem x (set_of xs) ≡ elem x xs
unfolding set_of elem
elem-set_of x [] = refl
elem-set_of x (y ∷ ys) = elim (Bool-cases (elem y ys)) [
  | inl e ↦ rw e (elem-set_of x ys ∙ elem-repeated x y ys e)
  | inr e ↦ rw (e, elem-set_of x ys) refl
]

-- The references of each member are among all.
pub refs_of_member :
    (refs : List String) (members : List MemoryRecord)
    → ((x : String) → elem x (all_refs members) ≡ true → elem x refs ≡ true)
    → All (λ (m : MemoryRecord). subset m.provenance_refs refs ≡ true) members
unfolding all_refs
refs_of_member refs [] h = tt
refs_of_member refs (m ∷ members) h = (
  subset_of_elem m.provenance_refs refs
      (λ x e. h x (elem-append x m.provenance_refs (all_refs members) ∙ rw e refl)),
  refs_of_member refs members
      (λ x e. h x (elem-append x m.provenance_refs (all_refs members) ∙ either _ _ e)),
)

ids : List MemoryRecord → List String
ids members = map (λ (m : MemoryRecord). m.memory_id) members

map-perm : {xs ys : List MemoryRecord} → Perm xs ys → Perm (ids xs) (ids ys)
unfolding ids
map-perm p = Perm.map (λ (m : MemoryRecord). m.memory_id) p

-- A group and the records that it stands for: all active records of one scope, one kind and one
-- normal form of the content, in their order.
pub record IsPlanned (casefold : String → String) (records : List MemoryRecord)
    (g : CompactionGroup) : Type 0 where
  pub normal : String
  pub members : List MemoryRecord
  pub of_key : members ≡ keep (belongs casefold (g.scope, g.kind, normal)) records
  pub several : ltb (length members) 2 ≡ false
  pub names :
      Perm (g.canonical_id ∷ g.redundant_ids) (map (λ (m : MemoryRecord). m.memory_id) members)
  pub refs :
      All (λ (m : MemoryRecord). subset m.provenance_refs g.merged_provenance_refs ≡ true) members

pub elem-refs :
    (members : List MemoryRecord) (x : String)
    → elem x (all_refs members) ≡ true
    → elem x (sort leb_text (set_of (all_refs members))) ≡ true
elem-refs members x h = elem-sort leb_text x _ ∙ elem-set_of x (all_refs members) ∙ h

module _ (casefold : String → String) (records : List MemoryRecord) where
  plan_ordered-IsPlanned :
      (scope kind normal : String) (members ordered : List MemoryRecord) {g : CompactionGroup}
      → members ≡ keep (belongs casefold (scope, kind, normal)) records
      → ltb (length members) 2 ≡ false
      → Perm ordered members
      → plan_ordered scope kind members ordered ≡ ok g
      → IsPlanned casefold records g
  unfolding plan_ordered ids
  plan_ordered-IsPlanned scope kind normal members [] of_key several p h = absurd (cc (h))
  plan_ordered-IsPlanned scope kind normal members (canonical ∷ others) of_key several p h =
      let (some_refs, h₁) = raise_if->>=-eq-ok _ _ _ h in
      subst (IsPlanned casefold records) (ok-injective h₁) (record {
        normal = normal;
        members = members;
        of_key = of_key;
        several = several;
        names =
            Perm.trans (Perm.cons canonical.memory_id (sort-perm leb_text (ids others)))
              (map-perm p);
        refs =
            refs_of_member (sort leb_text (set_of (all_refs members))) members (elem-refs members);
      })

  plan_groups-IsPlanned :
      (groups : Groups) {plans : List CompactionGroup}
      → All (λ (e : GroupKey × List MemoryRecord). e.1 ≡ keep (belongs casefold e.0) records) groups
      → plan_groups groups ≡ ok plans
      → All (IsPlanned casefold records) plans
  unfolding plan_groups
  plan_groups-IsPlanned [] hs h = subst (All (IsPlanned casefold records)) (ok-injective h) tt
  plan_groups-IsPlanned (((scope, kind, normal), members) ∷ groups) (of_key, hs) h =
      elim (Bool-cases (ltb (length members) 2)) [
        | inl e ↦ plan_groups-IsPlanned groups hs (rw (plan_groups, e) at h)
        | inr e ↦
            let (g, planned, h₁) =
              >>=-eq-ok (plan_ordered scope kind members (sort confident_first members)) _
                (rw (plan_groups, e) at h) in
            let (rest, others, h₂) = >>=-eq-ok (plan_groups groups) (λ r. ok (g ∷ r)) h₁ in
            subst (All (IsPlanned casefold records)) (ok-injective h₂) (
              plan_ordered-IsPlanned scope kind normal members (sort confident_first members) of_key
                  e (sort-perm confident_first members) planned,
              plan_groups-IsPlanned groups hs others,
            )
      ]

  -- Every group that is planned stands for two or more records: all active ones of its scope, its kind
  -- and one normal form of the content. Its names are theirs, and its references have all of theirs.
  pub plan-IsPlanned :
      {plans : List CompactionGroup}
      → plan casefold records ≡ ok plans
      → All (IsPlanned casefold records) plans
  unfolding plan
  plan-IsPlanned h =
      plan_groups-IsPlanned (sort group_before (group_records casefold records []))
        (sort-All group_before _ _ (group_records-keep casefold records)) h
