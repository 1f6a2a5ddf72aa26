-- ===== src/Orchestrator/Responses.antt =====
-- The terminal responses of automation/orchestrator/state.py, saved, loaded and pruned.
use pasi_engineering_workspa.Prelude.{
  ◌≡◌, refl, sym, ap, ◌∙◌, inl, inr, Bool, true, false, ◌||◌, String, str_eq, eq_iff, eq_refl, ok,
  >>=-eq-ok, ok-injective, Option, none, some, Bool-cases, List, [], ◌∷◌, keep, arith,
  if◌then◌else◌,
}
use Prim.Native.String.{◌++◌ as text_append}
use pasi_engineering_workspa.Text.{elem, strip, is_blank}
use pasi_engineering_workspa.Dict.{lookup}
use pasi_engineering_workspa.Json.{Value, obj, str, field, end, null, get}
use pasi_engineering_workspa.Orchestrator.{
  Files, ResponseStore, write_json, read_json, was_pruned_for, response_file,
  save_terminal_response, response_text, load_terminal_response, retained_files,
  prune_terminal_responses,
}
use pasi_engineering_workspa.Orchestrator.Queue.{read_json-write_json}

or_true : (b : Bool) → (b || true) ≡ true
or_true b = ground arith

kept_files : List String → Files → Files
kept_files paths files = keep (λ (f : String × Option Value). elem f.0 paths) files

str_eq-false_of_elem :
    (a b : String) (paths : List String)
    → elem a paths ≡ true
    → elem b paths ≡ false
    → str_eq a b ≡ false
str_eq-false_of_elem a b paths here gone = elim (Bool-cases (str_eq a b)) [
  | inl e ↦ absurd (ground (arith, eq_iff a b))
  | inr e ↦ e
]

str_eq_sym : (a b : String) → str_eq a b ≡ str_eq b a
str_eq_sym a b = ground (arith, eq_iff a b, eq_iff b a)

lookup-kept_in :
    (key : String) (paths : List String) (files : Files)
    → elem key paths ≡ true
    → lookup key (kept_files paths files) ≡ lookup key files
unfolding lookup keep kept_files
lookup-kept_in key paths [] h = refl
lookup-kept_in key paths ((k, v) ∷ files) h = elim (Bool-cases (elem k paths)) [
  | inl e ↦ rw (e, lookup-kept_in key paths files h) refl
  | inr e ↦
      rw (e, str_eq_sym k key, str_eq-false_of_elem key k paths h e)
        (lookup-kept_in key paths files h)
]

lookup-kept_out :
    (key : String) (paths : List String) (files : Files)
    → elem key paths ≡ false
    → lookup key (kept_files paths files) ≡ none
unfolding lookup keep kept_files
lookup-kept_out key paths [] h = refl
lookup-kept_out key paths ((k, v) ∷ files) h = elim (Bool-cases (elem k paths)) [
  | inl e ↦ rw (e, str_eq-false_of_elem k key paths e h) (lookup-kept_out key paths files h)
  | inr e ↦ rw e (lookup-kept_out key paths files h)
]

module _ (digest : String → String) where
  -- The file of a retained operation is retained.
  elem-retained_files :
      (id : String) (ids : List String) {paths : List String}
      → elem id ids ≡ true
      → retained_files digest ids ≡ ok paths
      → (path : String) × (response_file digest id ≡ ok path) × (elem path paths ≡ true)
  unfolding retained_files elem
  elem-retained_files id [] listed h = cc
  elem-retained_files id (i ∷ ids) {paths} listed h =
      let (path, h₁, h₂) = >>=-eq-ok (response_file digest i) _ h in
      let (rest, h₃, h₄) = >>=-eq-ok (retained_files digest ids) _ h₂ in
      elim (Bool-cases (str_eq id i)) [
        | inl e ↦
            let name : id ≡ i = ground (arith, eq_iff id i) in
            (
              path,
              ap (response_file digest) name ∙ h₁,
              rw (sym (ok-injective h₄), eq_refl path) refl,
            )
        | inr e ↦
            let (own, h₅, h₆) = elem-retained_files id ids (rw e at listed) h₃ in
            (own, h₅, rw (sym (ok-injective h₄), h₆) (or_true (str_eq own path)))
      ]

  load_same :
      (id path : String) (r q : ResponseStore)
      → response_file digest id ≡ ok path
      → lookup path r.files ≡ lookup path q.files
      → load_terminal_response digest id r ≡ load_terminal_response digest id q
  unfolding load_terminal_response read_json
  load_same id path r q own h = rw (load_terminal_response, own) (rw (read_json, h) refl)

  load_none :
      (id path : String) (r : ResponseStore)
      → response_file digest id ≡ ok path
      → lookup path r.files ≡ none
      → load_terminal_response digest id r ≡ ok none
  unfolding load_terminal_response read_json response_text
  load_none id path r own h = rw (load_terminal_response, own) (rw (read_json, h) refl)

  response_file-named :
      (id : String)
      → is_blank (strip id) ≡ false
      → response_file digest id ≡ ok (text_append (digest id) ".json")
  unfolding response_file
  response_file-named id named = rw (response_file, named) refl

  -- A saved response is loaded as it was, unless the operation's name is blank.
  pub save_terminal_response-load :
      (id text : String) (r : ResponseStore)
      → is_blank (strip id) ≡ false
      → (saved : ResponseStore) × (save_terminal_response digest id text r ≡ ok saved)
        × (load_terminal_response digest id saved ≡ ok (some text))
  unfolding save_terminal_response load_terminal_response response_text get
  save_terminal_response-load id text r named =
      let path = text_append (digest id) ".json" in
      let value = obj (field "operation_id" (str id) (field "response_text" (str text) end)) in
      (
        record r { has_directory = true; files = write_json path value r.files },
        rw (save_terminal_response, response_file-named id named) refl,
        rw
            (
              load_terminal_response,
              response_file-named id named,
              read_json-write_json path null value r.files,
              eq_refl id,
            )
            refl,
      )

  module _ (retained : List String) (r : ResponseStore) {pruned : ResponseStore}
      (done : prune_terminal_responses digest retained r ≡ ok pruned) where
    -- The files of a prune that took place
    pruned-files :
        {paths : List String}
        → was_pruned_for retained r ≡ false
        → r.has_directory ≡ true
        → retained_files digest retained ≡ ok paths
        → pruned.files ≡ kept_files paths r.files
    unfolding prune_terminal_responses kept_files
    pruned-files fresh there names =
        ap (λ (s : ResponseStore). s.files)
          (sym (ok-injective (rw (prune_terminal_responses, fresh, there, names) at done)))

    -- After a prune that was not passed over, an operation's response is loaded as before if its file
    -- is that of a retained operation, and is gone if it is not.
    pub prune_terminal_responses-load :
        {paths : List String} (id path : String)
        → was_pruned_for retained r ≡ false
        → r.has_directory ≡ true
        → retained_files digest retained ≡ ok paths
        → response_file digest id ≡ ok path
        → load_terminal_response digest id pruned
          ≡ (if elem path paths then load_terminal_response digest id r else ok none)
    prune_terminal_responses-load {paths} id path fresh there names own =
        let files = pruned-files fresh there names in
        elim (Bool-cases (elem path paths)) [
          | inl e ↦ rw e (
              load_same id path pruned r own
                (ap (lookup path) files ∙ lookup-kept_in path paths r.files e))
          | inr e ↦ rw e (
              load_none id path pruned own
                (ap (lookup path) files ∙ lookup-kept_out path paths r.files e))
        ]

    -- No prune that succeeds changes what is loaded for an operation that it retains.
    pub prune_terminal_responses-keeps :
        (id : String)
        → elem id retained ≡ true
        → load_terminal_response digest id pruned ≡ load_terminal_response digest id r
    unfolding prune_terminal_responses load_terminal_response
    prune_terminal_responses-keeps id listed = elim (Bool-cases (was_pruned_for retained r)) [
      | inl passed ↦
          ap (load_terminal_response digest id)
            (sym (ok-injective (rw (prune_terminal_responses, passed) at done)))
      | inr fresh ↦ elim (Bool-cases r.has_directory) [
        | inl there ↦
            let (paths, names, rest) =
              >>=-eq-ok (retained_files digest retained) _
                (rw (prune_terminal_responses, fresh, there) at done) in
            let (path, own, found) = elem-retained_files id retained listed names in
            prune_terminal_responses-load id path fresh there names own
            ∙ ap (λ t. if t then load_terminal_response digest id r else ok none) found
        | inr gone ↦
            ap (load_terminal_response digest id)
              (sym (ok-injective (rw (prune_terminal_responses, fresh, gone) at done)))
      ]
    ]
