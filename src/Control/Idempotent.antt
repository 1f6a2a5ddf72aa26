-- ===== src/Control/Idempotent.antt =====
-- A key of a command is used once: the command stays, and is what every later call with it returns.
use pasi_engineering_workspa.Prelude.{
  ◌≡◌, refl, sym, ap, subst, ◌∙◌, true, String, str_eq, eq_refl, Result, ok, some, ok-injective,
}
use pasi_engineering_workspa.Dict.{
  str_eq-false_of_lookup, lookup, lookup-put_self, lookup-put_other,
}
use pasi_engineering_workspa.Json.{Fields}
use pasi_engineering_workspa.Control.{
  ControlError, ControlRequest, ControlResult, ControlCommand, Stores, check_request,
  request_payload, control_command, replayed, execute,
}
use pasi_engineering_workspa.Control.Laws.{
  Outcome, refused, repeated, interrupted, executed, execute-Outcome,
}

module _ (dumps : Fields → String) (sha256 : String → String) (hash_of : Fields → String) where
  Outcome-lookup :
      (secret now : String) (q : ControlRequest) (s : Stores)
      {done : Stores × Result ControlError ControlResult} (key : String) (c : ControlCommand)
      → Outcome dumps sha256 hash_of secret now q s done
      → lookup key s.commands ≡ some c
      → lookup key done.0.commands ≡ some c
  Outcome-lookup secret now q s {done} key c o h =
      let At =
        λ (d : Stores × Result ControlError ControlResult). lookup key d.0.commands ≡ some c in
      elim o [
        | refused e same ↦ subst At (sym same) h
        | repeated x c' k hash same ↦ subst At (sym same) h
        | interrupted e ops next log c' k m l same ↦ subst At (sym same) h
        | executed ops next event row c' k m made appended same ↦ subst At (sym same) (
            lookup-put_other q.idempotency_key key
              (control_command q (hash_of (request_payload q)) next) s.commands
              (str_eq-false_of_lookup q.idempotency_key key s.commands k h)
            ∙ h)
      ]

  -- A command that answers this request
  Answers : ControlRequest → Stores → ControlResult → Type 0
  Answers q s r =
      (c : ControlCommand) × (lookup q.idempotency_key s.commands ≡ some c)
      × (str_eq c.payload_sha256 (hash_of (request_payload q)) ≡ true)
      × (c.result ≡ r)

  Outcome-Answers :
      (secret now : String) (q : ControlRequest) (s : Stores)
      {done : Stores × Result ControlError ControlResult} (r : ControlResult)
      → Outcome dumps sha256 hash_of secret now q s done
      → done.1 ≡ ok r
      → (check_request secret q ≡ ok tt) × Answers q done.0 r
  unfolding Answers control_command
  Outcome-Answers secret now q s {done} r o h =
      let P = λ (d : Stores × Result ControlError ControlResult). Answers q d.0 r in
      elim o [
        | refused e same ↦ absurd (cc (sym (ap (λ d. d.1) same) ∙ h))
        | interrupted e ops next log c k m l same ↦ absurd (cc (sym (ap (λ d. d.1) same) ∙ h))
        | repeated c checked there hash same ↦ (
          checked,
          subst P (sym same) (c, there, hash, ok-injective (sym (ap (λ d. d.1) same) ∙ h)),
        )
        | executed ops next event row checked k m made appended same ↦ (
          checked,
          subst P (sym same) (
            control_command q (hash_of (request_payload q)) next,
            lookup-put_self q.idempotency_key _ s.commands,
            eq_refl (hash_of (request_payload q)),
            ok-injective (sym (ap (λ d. d.1) same) ∙ h),
          ),
        )
      ]

  -- Calls of any clients, one after the other, whatever they ask for and however they end
  pub data Calls (secret : String) (s : Stores) : Stores → Type 0 where
    none_yet : Calls secret s s
    call :
        {t u : Stores} (now : String) (q : ControlRequest)
        → Calls secret s t
        → u ≡ (execute dumps sha256 hash_of secret now q t).0
        → Calls secret s u

  Calls-lookup :
      {secret : String} {s t : Stores} (key : String) (c : ControlCommand)
      → Calls secret s t
      → lookup key s.commands ≡ some c
      → lookup key t.commands ≡ some c
  Calls-lookup key c none_yet h = h
  Calls-lookup {secret} key c (call {t} now q calls same) h =
      subst (λ (u : Stores). lookup key u.commands ≡ some c) (sym same)
        (Outcome-lookup secret now q t key c (execute-Outcome dumps sha256 hash_of secret now q t)
          (Calls-lookup key c calls h))

  -- When a call was accepted, the same call made again returns the same result and changes nothing,
  -- at any time later and whatever calls came between.
  pub execute_repeats :
      (secret now now₂ : String) (q : ControlRequest) (s : Stores) (r : ControlResult) (t : Stores)
      → (execute dumps sha256 hash_of secret now q s).1 ≡ ok r
      → Calls secret (execute dumps sha256 hash_of secret now q s).0 t
      → execute dumps sha256 hash_of secret now₂ q t ≡ (t, ok r)
  unfolding execute replayed Answers
  execute_repeats secret now now₂ q s r t h calls =
      let (checked, (c, there, same, result)) =
        Outcome-Answers secret now q s r (execute-Outcome dumps sha256 hash_of secret now q s) h in
      rw (execute, checked, Calls-lookup q.idempotency_key c calls there, replayed, same, result)
        refl
