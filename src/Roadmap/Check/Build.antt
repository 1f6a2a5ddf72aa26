-- ===== src/Roadmap/Check/Build.antt =====
-- The constructor of a roadmap as a whole.
use Prim.Native.String.{count}
use pasi_engineering_workspa.Prelude.{
  ℕ, ℤ, pos, ◌≤ℤ◌, ltb_ℤ, ltb, ◌≡◌, refl, ap, true, false, not, ◌&&◌, String, str_eq, ok, arith,
  ◌⊎◌, inl, inr, >>=-eq-ok, raise_if->>=-eq-ok, raise_if-false, eq_iff, subst, ok-injective,
}
use pasi_engineering_workspa.Text.{is_blank, strip, has_duplicates}
use pasi_engineering_workspa.Roadmap.Model.{nonempty}
use pasi_engineering_workspa.Roadmap.Graph.{Graph}
use pasi_engineering_workspa.Roadmap.Graph.Order.{IsAcyclic}
use pasi_engineering_workspa.Roadmap.Graph.Fuel.{IsClosed}
use pasi_engineering_workspa.Roadmap.Check.{
  Contents, Roadmap, Digest, phase_ids, task_ids, check_phase_refs, check_task_refs, phase_graph,
  task_graph, check_acyclic, checked_version, build,
}
use pasi_engineering_workspa.Roadmap.Check.Sound.{
  IsWellFormed, PhaseRefs-iff, TaskRefs-iff, task_graph-IsClosed, phase_graph-IsClosed,
  check_acyclic_lem,
}

checked_version_lem : (v : ℤ) {w : ℤ} → checked_version v ≡ ok w → w ≡ pos 4
unfolding checked_version
checked_version_lem v h = ground arith

checked_version-four : (v : ℤ) → v ≡ pos 4 → checked_version v ≡ ok v
unfolding checked_version
checked_version-four v h = rw h

claim_ok :
    (digest : Digest) (c : Contents) (claimed : String)
    → (is_blank claimed ≡ true) ⊎ (claimed ≡ digest c)
    → (not (is_blank claimed) && not (str_eq claimed (digest c))) ≡ false
claim_ok digest c claimed h = ground (arith, eq_iff claimed (digest c))

not_below_zero : (n : ℤ) → ltb_ℤ n (pos 0) ≡ false → pos 0 ≤ℤ n
not_below_zero n h = ground arith

below_zero : (n : ℤ) → pos 0 ≤ℤ n → ltb_ℤ n (pos 0) ≡ false
below_zero n h = ground arith

IsAcyclic-of_ok : (g : Graph) → IsClosed g → check_acyclic g ≡ ok tt → IsAcyclic g
IsAcyclic-of_ok g closed h = elim (check_acyclic_lem g closed) [
  | inl (_, acyclic) ↦ acyclic
  | inr (failed, _) ↦ absurd (cc)
]

check_acyclic_ok : (g : Graph) → IsClosed g → IsAcyclic g → check_acyclic g ≡ ok tt
check_acyclic_ok g closed acyclic = elim (check_acyclic_lem g closed) [
  | inl (passed, _) ↦ passed
  | inr (_, (x, w)) ↦ absurd (acyclic x w)
]

nonempty_lem :
    (limit : ℕ) (v : String) {w : String}
    → nonempty limit v ≡ ok w
    → (is_blank (strip v) ≡ false) × (ltb limit (count (strip v)) ≡ false)
unfolding nonempty
nonempty_lem limit v h =
    let (a, h₁) = raise_if->>=-eq-ok (is_blank (strip v)) _ _ h in
    let (b, h₂) = raise_if->>=-eq-ok (ltb limit (count (strip v))) _ _ h₁ in (a, b)

nonempty_ok :
    (limit : ℕ) (v : String)
    → is_blank (strip v) ≡ false
    → ltb limit (count (strip v)) ≡ false
    → nonempty limit v ≡ ok (strip v)
unfolding nonempty
nonempty_ok limit v a b = rw (a, b)

-- What a roadmap that was built is: its contents are those given, at version 4 and well formed, its
-- digest is that of the contents and of the claim if there was one.
pub record IsBuilt (digest : Digest) (given : Contents) (claimed : String) (r : Roadmap)
    : Type 0 where
  pub contents : r.contents ≡ record given { version = pos 4 }
  pub hashed : r.canonical_sha256 ≡ digest r.contents
  pub claim : (not (is_blank claimed) && not (str_eq claimed r.canonical_sha256)) ≡ false
  pub named : is_blank (strip given.roadmap_id) ≡ false
  pub short : ltb 256 (count (strip given.roadmap_id)) ≡ false
  pub well_formed : IsWellFormed r.contents

pub build-IsBuilt :
    (digest : Digest) (given : Contents) (claimed : String) {r : Roadmap}
    → build digest given claimed ≡ ok r
    → IsBuilt digest given claimed r
unfolding build
build-IsBuilt digest given claimed h =
    let (_, e₁, h₁) = >>=-eq-ok (nonempty 256 given.roadmap_id) _ h in
    let (version, e₂, h₂) = >>=-eq-ok (checked_version given.version) _ h₁ in
    let c : Contents = record given { version = version } in
    let (e₃, h₃) = raise_if->>=-eq-ok (ltb_ℤ given.revision (pos 0)) _ _ h₂ in
    let (e₄, h₄) = raise_if->>=-eq-ok (has_duplicates (phase_ids given.phases)) _ _ h₃ in
    let (e₅, h₅) = raise_if->>=-eq-ok (has_duplicates (task_ids given.tasks)) _ _ h₄ in
    let (_, e₆, h₆) = >>=-eq-ok (check_phase_refs (phase_ids given.phases) given.phases) _ h₅ in
    let (_, e₇, h₇) =
      >>=-eq-ok (check_task_refs (phase_ids given.phases) (task_ids given.tasks) given.tasks) _
        h₆ in
    let (_, e₈, h₈) = >>=-eq-ok (check_acyclic (phase_graph given.phases)) _ h₇ in
    let (_, e₉, h₉) = >>=-eq-ok (check_acyclic (task_graph given.tasks)) _ h₈ in
    let (claim, end) =
      raise_if->>=-eq-ok (not (is_blank claimed) && not (str_eq claimed (digest c))) _ _ h₉ in
    let phase_refs = (PhaseRefs-iff (phase_ids given.phases) given.phases).0 e₆ in
    let task_refs =
      (TaskRefs-iff (phase_ids given.phases) (task_ids given.tasks) given.tasks).0 e₇ in
    let (named, short) = nonempty_lem 256 given.roadmap_id e₁ in
    subst (IsBuilt digest given claimed) (ok-injective end) (record {
      contents = ap (λ v. record given { version = v }) (checked_version_lem given.version e₂);
      hashed = refl;
      claim = claim;
      named = named;
      short = short;
      well_formed = record {
        version = checked_version_lem given.version e₂;
        revision = not_below_zero given.revision e₃;
        distinct_phases = e₄;
        distinct_tasks = e₅;
        phase_refs = phase_refs;
        task_refs = task_refs;
        acyclic_phases = IsAcyclic-of_ok _ (phase_graph-IsClosed given.phases phase_refs) e₈;
        acyclic_tasks =
            IsAcyclic-of_ok _ (task_graph-IsClosed (phase_ids given.phases) given.tasks task_refs)
              e₉;
      };
    })

-- Contents that are named and well formed are accepted as they are, with the digest of them or none
-- claimed.
pub build_accepts :
    (digest : Digest) (c : Contents) (claimed : String)
    → is_blank (strip c.roadmap_id) ≡ false
    → ltb 256 (count (strip c.roadmap_id)) ≡ false
    → IsWellFormed c
    → (is_blank claimed ≡ true) ⊎ (claimed ≡ digest c)
    → build digest c claimed ≡ ok (record { contents = c; canonical_sha256 = digest c })
unfolding build
build_accepts digest c claimed named short w claim =
    simp
      (
        nonempty_ok 256 c.roadmap_id named short,
        checked_version-four c.version w.version,
        below_zero c.revision w.revision,
        w.distinct_phases,
        w.distinct_tasks,
        (PhaseRefs-iff (phase_ids c.phases) c.phases).1 w.phase_refs,
        (TaskRefs-iff (phase_ids c.phases) (task_ids c.tasks) c.tasks).1 w.task_refs,
        check_acyclic_ok _ (phase_graph-IsClosed c.phases w.phase_refs) w.acyclic_phases,
        check_acyclic_ok _ (task_graph-IsClosed (phase_ids c.phases) c.tasks w.task_refs)
            w.acyclic_tasks,
      )
      (raise_if-false _ _ _ (claim_ok digest c claimed claim))
