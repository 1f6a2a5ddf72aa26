-- ===== src/Event/Laws.antt =====
-- What the constructor of an event accepts.
use pasi_engineering_workspa.Prelude.{
  ℕ, ◌+◌, pos, eqb_ℤ, ◌≡◌, refl, sym, false, not, ◌&&◌, String, str_eq, ok, >>=-eq-ok,
  raise_if->>=-eq-ok, ok-injective, eq_refl, subst, some, arith,
}
use pasi_engineering_workspa.Text.{is_blank}
use pasi_engineering_workspa.Json.{Fields}
use pasi_engineering_workspa.Event.{
  DurableEvent, check_names, check_sequence, check_refs, payload_digest, make_event,
}

module _ (dumps : Fields → String) (sha256 : String → String) where
  -- The event that the constructor returns is the one that it was given, with the digest of its
  -- payload.
  pub record IsMade (e made : DurableEvent) : Type 0 where
    pub digest : String
    pub names : check_names e ≡ ok tt
    pub version : not (eqb_ℤ e.schema_version (pos 1)) ≡ false
    pub numbered : check_sequence e.sequence ≡ ok tt
    pub digested : payload_digest dumps sha256 e.payload ≡ ok digest
    pub right_digest :
        (not (is_blank e.payload_sha256) && not (str_eq e.payload_sha256 digest)) ≡ false
    pub refs : check_refs e.evidence_refs ≡ ok tt
    pub same : made ≡ record e { payload_sha256 = digest }

  pub make_event-IsMade :
      (e : DurableEvent) {made : DurableEvent} → make_event dumps sha256 e ≡ ok made → IsMade e made
  unfolding make_event
  make_event-IsMade e h =
      let (_, names, h₁) = >>=-eq-ok (check_names e) _ h in
      let (version, h₂) = raise_if->>=-eq-ok (not (eqb_ℤ e.schema_version (pos 1))) _ _ h₁ in
      let (_, numbered, h₃) = >>=-eq-ok (check_sequence e.sequence) _ h₂ in
      let (digest, digested, h₄) = >>=-eq-ok (payload_digest dumps sha256 e.payload) _ h₃ in
      let (right, h₅) =
        raise_if->>=-eq-ok (not (is_blank e.payload_sha256) && not (str_eq e.payload_sha256 digest))
          _ _ h₄ in
      let (_, refs, h₆) = >>=-eq-ok (check_refs e.evidence_refs) _ h₅ in
      record {
        digest = digest;
        names = names;
        version = version;
        numbered = numbered;
        digested = digested;
        right_digest = right;
        refs = refs;
        same = sym (ok-injective h₆);
      }

  pub IsMade-make_event :
      {e made : DurableEvent} → IsMade e made → make_event dumps sha256 e ≡ ok made
  unfolding make_event
  IsMade-make_event {e} m =
      rw (make_event, m.names, m.version, m.numbered, m.digested, m.right_digest, m.refs, m.same)
        refl

  -- What the constructor returns, it accepts as it is.
  pub make_event_made :
      (e : DurableEvent) {made : DurableEvent}
      → make_event dumps sha256 e ≡ ok made
      → make_event dumps sha256 made ≡ ok made
  unfolding check_names
  make_event_made e h =
      let m = make_event-IsMade e h in
      subst (λ (d : DurableEvent). make_event dumps sha256 d ≡ ok d) (sym m.same)
        (IsMade-make_event (record {
          digest = m.digest;
          names = m.names;
          version = m.version;
          numbered = m.numbered;
          digested = m.digested;
          right_digest = ground (arith, eq_refl m.digest);
          refs = m.refs;
          same = refl;
        }))

  -- An accepted event stays accepted as it is, and with a sequence number that is not 0.
  pub make_event_again :
      (e : DurableEvent) {made : DurableEvent} (number : ℕ)
      → make_event dumps sha256 e ≡ ok made
      → make_event dumps sha256 (record made { sequence = some (pos (number + 1)) })
        ≡ ok (record made { sequence = some (pos (number + 1)) })
  unfolding check_names check_sequence
  make_event_again e number h =
      let m = make_event-IsMade e h in
      subst
        (λ (d : DurableEvent).
          make_event dumps sha256 (record d { sequence = some (pos (number + 1)) })
          ≡ ok (record d { sequence = some (pos (number + 1)) }))
        (sym m.same)
        (IsMade-make_event (record {
          digest = m.digest;
          names = m.names;
          version = m.version;
          numbered = ground arith;
          digested = m.digested;
          right_digest = ground (arith, eq_refl m.digest);
          refs = m.refs;
          same = refl;
        }))
