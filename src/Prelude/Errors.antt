-- ===== src/Prelude/Errors.antt =====
-- A Python function that may raise: the value returned, or the exception.
use mathlib.Core.Path.{◌≡◌, refl}
use mathlib.Core.Logic.{◌⊎◌, inl, inr}
use mathlib.Core.Bool.{Bool, true, false}

-- `err` comes first, as a block stops at it.
pub data Result {ℓ} (E A : Type ℓ) : Type ℓ where
  err : E → Result E A
  ok : A → Result E A

infixl 5 ◌>>=◌ ◌>>◌
abbrev pub ◌>>=◌ {ℓ} : {E A B : Type ℓ} → Result E A → (A → Result E B) → Result E B
err raised >>= next = err raised
ok value >>= next = next value

abbrev pub ◌>>◌ {ℓ} : {E A B : Type ℓ} → Result E A → Result E B → Result E B
call >> next = call >>= λ _. next

-- `if test: raise e`
abbrev pub raise_if : {E : Type 0} → Bool → E → Result E (Unit {0})
raise_if false raised = ok tt
raise_if true raised = err raised

-- `try: … except E as exc: raise F from exc`
abbrev pub map_err : {E F A : Type 0} → (E → F) → Result E A → Result F A
map_err wrap (err raised) = err (wrap raised)
map_err wrap (ok value) = ok value

pub Result-cases {ℓ} :
    {E A : Type ℓ} (call : Result E A)
    → ((raised : E) × (call ≡ err raised)) ⊎ ((value : A) × (call ≡ ok value))
Result-cases (err raised) = inl (raised, refl)
Result-cases (ok value) = inr (value, refl)

-- What a successful block went through.
pub >>=-eq-ok {ℓ} :
    {E A B : Type ℓ} (call : Result E A) (next : A → Result E B) {b : B}
    → (call >>= next) ≡ ok b
    → (value : A) × (call ≡ ok value) × (next value ≡ ok b)
>>=-eq-ok (err raised) next h = cc
>>=-eq-ok (ok value) next h = (value, refl, h)

pub raise_if-eq-ok :
    {E : Type 0} (test : Bool) (raised : E) {u : Unit {0}}
    → raise_if test raised ≡ ok u
    → test ≡ false
raise_if-eq-ok false raised h = refl
raise_if-eq-ok true raised h = cc

pub raise_if->>=-eq-ok :
    {E B : Type 0} (test : Bool) (raised : E) (next : Result E B) {b : B}
    → (raise_if test raised >> next) ≡ ok b
    → (test ≡ false) × (next ≡ ok b)
raise_if->>=-eq-ok false raised next h = (refl, h)
raise_if->>=-eq-ok true raised next h = cc

pub ok-injective : {E A : Type 0} {a b : A} → ◌≡◌ {A = Result E A} (ok a) (ok b) → a ≡ b
ok-injective h = cc

pub map_err-eq-ok :
    {E F A : Type 0} (wrap : E → F) (call : Result E A) {a : A}
    → map_err wrap call ≡ ok a
    → call ≡ ok a
map_err-eq-ok wrap (err raised) h = cc
map_err-eq-ok wrap (ok value) h = cc

-- A block fails at its first step, or after it.
pub >>=-eq-err {ℓ} :
    {E A B : Type ℓ} (call : Result E A) (next : A → Result E B) {raised : E}
    → (call >>= next) ≡ err raised
    → (call ≡ err raised) ⊎ ((value : A) × (call ≡ ok value) × (next value ≡ err raised))
>>=-eq-err (err raised) next h = inl (cc)
>>=-eq-err (ok value) next h = inr (value, refl, h)

pub raise_if-false :
    {E B : Type 0} (test : Bool) (raised : E) (next : Result E B)
    → test ≡ false
    → (raise_if test raised >> next) ≡ next
raise_if-false test raised next h = rw h
