-- ===== src/Memory/Compaction/Groups.antt =====
-- The groups that `plan` of src/pasi/core/memory_compaction.py collects: of every key the records of
-- this key, in their order.
use pasi_engineering_workspa.Prelude.{
  ◌≡◌, refl, sym, ap, ◌∙◌, inl, inr, Bool, true, false, ◌&&◌, String, str_eq, eq_iff, eq_refl,
  &&_true, Bool-cases, List, [], ◌∷◌, ◌++◌, keep, All, arith, if◌then◌else◌,
}
use mathlib.Core.List.{append-nil}
use pasi_engineering_workspa.Sort.{All-map}
use pasi_engineering_workspa.Memory.{MemoryRecord, is_active_memory}
use pasi_engineering_workspa.Memory.Compaction.{
  GroupKey, Groups, same_key, add_member, key_of, group_records,
}

same_key_refl : (a : GroupKey) → same_key a a ≡ true
same_key_refl (s, k, n) = rw (eq_refl s, eq_refl k, eq_refl n) refl

same_key_eq : (a b : GroupKey) → same_key a b ≡ true → a ≡ b
same_key_eq (s, k, n) (t, l, m) h =
    let (rest, hn) = &&_true (str_eq s t && str_eq k l) (str_eq n m) h in
    let (hs, hk) = &&_true (str_eq s t) (str_eq k l) rest in
    let s_is : s ≡ t = ground (arith, eq_iff s t) in
    let k_is : k ≡ l = ground (arith, eq_iff k l) in
    let n_is : n ≡ m = ground (arith, eq_iff n m) in
    ap (λ x. (x, k, n)) s_is ∙ ap (λ x. (t, x, n)) k_is ∙ ap (λ x. (t, l, x)) n_is

-- The records of a key, and none where there is no group of it
members_of : GroupKey → Groups → List MemoryRecord
members_of key [] = []
members_of key ((k, members) ∷ groups) = if same_key k key then members else members_of key groups

-- Two keys that are not the same have no third one in common.
same_key-false :
    (a b c : GroupKey) → same_key a b ≡ false → same_key a c ≡ true → same_key b c ≡ false
same_key-false a b c h k = elim (Bool-cases (same_key b c)) [
  | inr e ↦ e
  | inl e ↦
      let a_is : a ≡ b = same_key_eq a c k ∙ sym (same_key_eq b c e) in
      absurd (cc (sym (ap (λ x. same_key x b) a_is ∙ same_key_refl b) ∙ h))
]

add_to : Bool → List MemoryRecord → MemoryRecord → List MemoryRecord
add_to b members m = if b then members ++ m ∷ [] else members

add_to_nothing : (b : Bool) (m : MemoryRecord) → (if b then m ∷ [] else []) ≡ add_to b [] m
unfolding add_to
add_to_nothing true m = refl
add_to_nothing false m = refl

add_to_if :
    (b : Bool) (members others : List MemoryRecord) (m : MemoryRecord)
    → (if b then members ++ m ∷ [] else others) ≡ add_to b (if b then members else others) m
unfolding add_to
add_to_if true members others m = refl
add_to_if false members others m = refl

members_of-add_member :
    (j key : GroupKey) (m : MemoryRecord) (groups : Groups)
    → members_of j (add_member key m groups) ≡ add_to (same_key key j) (members_of j groups) m
unfolding members_of add_member add_to
members_of-add_member j key m [] = add_to_nothing (same_key key j) m
members_of-add_member j key m ((k, members) ∷ groups) = elim (Bool-cases (same_key k key)) [
  | inl e ↦ rw e (
      ap (λ b. if b then members ++ m ∷ [] else members_of j groups)
        (ap (λ x. same_key x j) (same_key_eq k key e))
      ∙ add_to_if (same_key key j) members (members_of j groups) m
      ∙ ap (λ b. add_to (same_key key j) (if b then members else members_of j groups) m)
          (ap (λ x. same_key x j) (sym (same_key_eq k key e))))
  | inr e ↦ elim (Bool-cases (same_key k j)) [
    | inl f ↦ rw (e, f, same_key-false k key j e f) refl
    | inr f ↦ rw (e, f) (members_of-add_member j key m groups)
  ]
]

append_one :
    (xs : List MemoryRecord) (m : MemoryRecord) (ys : List MemoryRecord)
    → (xs ++ m ∷ []) ++ ys ≡ xs ++ m ∷ ys
append_one [] m ys = refl
append_one (x ∷ xs) m ys = ap (λ zs. x ∷ zs) (append_one xs m ys)

-- No key has two groups.
abbrev IsDistinct : Groups → Type 0
IsDistinct [] = Unit
IsDistinct ((k, members) ∷ groups) =
    All (λ (e : GroupKey × List MemoryRecord). same_key k e.0 ≡ false) groups × IsDistinct groups

add_member-apart :
    (k key : GroupKey) (m : MemoryRecord) (groups : Groups)
    → same_key k key ≡ false
    → All (λ (e : GroupKey × List MemoryRecord). same_key k e.0 ≡ false) groups
    → All (λ (e : GroupKey × List MemoryRecord). same_key k e.0 ≡ false) (add_member key m groups)
unfolding add_member
add_member-apart k key m [] h hs = (h, tt)
add_member-apart k key m ((j, members) ∷ groups) h (hj, hs) = elim (Bool-cases (same_key j key)) [
  | inl e ↦ rw e (hj, hs)
  | inr e ↦ rw e (hj, add_member-apart k key m groups h hs)
]

add_member-IsDistinct :
    (key : GroupKey) (m : MemoryRecord) (groups : Groups)
    → IsDistinct groups
    → IsDistinct (add_member key m groups)
unfolding add_member
add_member-IsDistinct key m [] h = (tt, tt)
add_member-IsDistinct key m ((k, members) ∷ groups) (apart, rest) =
    elim (Bool-cases (same_key k key)) [
      | inl e ↦ rw e (apart, rest)
      | inr e ↦
          rw e (add_member-apart k key m groups e apart, add_member-IsDistinct key m groups rest)
    ]

-- In distinct groups the group of a key is the one that is found.
found_apart :
    (k : GroupKey) (members : List MemoryRecord) (groups others : Groups)
    → All (λ (e : GroupKey × List MemoryRecord). same_key k e.0 ≡ false) others
    → All (λ (e : GroupKey × List MemoryRecord). e.1 ≡ members_of e.0 groups) others
    → All
        (λ (e : GroupKey × List MemoryRecord). e.1 ≡ members_of e.0 ((k, members) ∷ groups))
        others
unfolding members_of
found_apart k members groups [] apart hs = tt
found_apart k members groups (e ∷ others) (far, apart) (h, hs) =
    (rw far h, found_apart k members groups others apart hs)

IsDistinct-found :
    (groups : Groups)
    → IsDistinct groups
    → All (λ (e : GroupKey × List MemoryRecord). e.1 ≡ members_of e.0 groups) groups
unfolding members_of
IsDistinct-found [] h = tt
IsDistinct-found ((k, members) ∷ groups) (apart, rest) = (
  rw (same_key_refl k) refl,
  found_apart k members groups groups apart (IsDistinct-found groups rest),
)

module _ (casefold : String → String) where
  -- An active record of the key
  unfoldable pub belongs : GroupKey → MemoryRecord → Bool
  belongs key m = is_active_memory m.status && same_key (key_of casefold m) key

  add_to-keep :
      (key : GroupKey) (m : MemoryRecord) (xs records : List MemoryRecord)
      → is_active_memory m.status ≡ true
      → add_to (same_key (key_of casefold m) key) xs m ++ keep (belongs key) records
        ≡ xs ++ keep (belongs key) (m ∷ records)
  unfolding keep belongs add_to
  add_to-keep key m xs records h = elim (Bool-cases (same_key (key_of casefold m) key)) [
    | inl e ↦ rw (h, e) (append_one xs m (keep (belongs key) records))
    | inr e ↦ rw (h, e) refl
  ]

  keep-archived :
      (key : GroupKey) (m : MemoryRecord) (records : List MemoryRecord)
      → is_active_memory m.status ≡ false
      → keep (belongs key) (m ∷ records) ≡ keep (belongs key) records
  unfolding keep belongs
  keep-archived key m records h = rw h refl

  group_records-members :
      (records : List MemoryRecord) (groups : Groups) (key : GroupKey)
      → members_of key (group_records casefold records groups)
        ≡ members_of key groups ++ keep (belongs key) records
  unfolding group_records keep
  group_records-members [] groups key = sym (append-nil (members_of key groups))
  group_records-members (m ∷ records) groups key = elim (Bool-cases (is_active_memory m.status)) [
    | inl e ↦
        ap
          (λ b. members_of key (
            group_records casefold records
              (if b then add_member (key_of casefold m) m groups else groups)))
          e
        ∙ group_records-members records (add_member (key_of casefold m) m groups) key
        ∙ ap (λ ms. ms ++ keep (belongs key) records)
            (members_of-add_member key (key_of casefold m) m groups)
        ∙ add_to-keep key m (members_of key groups) records e
    | inr e ↦
        ap
          (λ b. members_of key (
            group_records casefold records
              (if b then add_member (key_of casefold m) m groups else groups)))
          e
        ∙ group_records-members records groups key
        ∙ ap (λ ms. members_of key groups ++ ms) (sym (keep-archived key m records e))
  ]

  group_records-IsDistinct :
      (records : List MemoryRecord) (groups : Groups)
      → IsDistinct groups
      → IsDistinct (group_records casefold records groups)
  unfolding group_records
  group_records-IsDistinct [] groups h = h
  group_records-IsDistinct (m ∷ records) groups h = elim (Bool-cases (is_active_memory m.status)) [
    | inl e ↦ rw e (
        group_records-IsDistinct records (add_member (key_of casefold m) m groups)
          (add_member-IsDistinct (key_of casefold m) m groups h))
    | inr e ↦ rw e (group_records-IsDistinct records groups h)
  ]

  -- Every group that is collected holds the active records of its key, in their order.
  pub group_records-keep :
      (records : List MemoryRecord)
      → All
          (λ (e : GroupKey × List MemoryRecord). e.1 ≡ keep (belongs e.0) records)
          (group_records casefold records [])
  unfolding keep members_of
  group_records-keep records =
      All-map (group_records casefold records []) (λ e h. h ∙ group_records-members records [] e.0)
        (IsDistinct-found (group_records casefold records [])
          (group_records-IsDistinct records [] tt))
