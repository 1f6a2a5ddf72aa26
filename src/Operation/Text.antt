-- ===== src/Operation/Text.antt =====
-- `_bounded_string` of operation_state.py, and the digest test of `__post_init__`.
use Prim.Native.String.{count}
use pasi_engineering_workspa.Prelude.{
  ℕ, ◌≡◌, Bool, false, not, ◌||◌, ◌&&◌, String, Result, ok, err, raise_if, ◌>>◌, ltb, ◌==◌, sym,
  raise_if->>=-eq-ok,
}
use pasi_engineering_workspa.Text.{strip, is_blank, any_char}
use pasi_engineering_workspa.Text.Strip.{strip-strip}
use pasi_engineering_workspa.Json.{Value, str}

-- Why a value is refused; the text names the field.
pub data Refusal : Type 0 where
  not_a_string empty too_long control_characters : Refusal
  unsupported_status unsupported_schema unhashable : Refusal
  not_an_object too_many_keys : Refusal
  not_a_count above_attempt not_positive not_a_digest : Refusal

-- The three exception classes of operation_state.py.
pub data OperationError : Type 0 where
  invalid_state : (name : String) → Refusal → OperationError
  invalid_transition revision_conflict : OperationError

-- `ord(char) < 32 and char not in "\\t"`: the literal holds a backslash and a `t`, so that every
-- character below 32 counts.
unfoldable pub is_control : ℕ → Bool
is_control c = ltb c 32 && not (c == 92 || c == 116)

unfoldable pub bounded_text : String → ℕ → Bool → String → Result OperationError String
bounded_text name limit allow_empty value = do
  let normalized = strip value
  raise_if (not allow_empty && is_blank normalized) (invalid_state name Refusal.empty)
  raise_if (ltb limit (count normalized)) (invalid_state name Refusal.too_long)
  raise_if (any_char is_control normalized) (invalid_state name Refusal.control_characters)
  ok normalized

unfoldable pub bounded_string : String → ℕ → Bool → Value → Result OperationError String
bounded_string name limit allow_empty (str value) = bounded_text name limit allow_empty value
bounded_string name limit allow_empty _ = err (invalid_state name Refusal.not_a_string)

-- A text as `_bounded_string` returns it.
pub record IsNormal (limit : ℕ) (allow_empty : Bool) (s : String) : Type 0 where
  pub stripped : strip s ≡ s
  pub filled : (not allow_empty && is_blank s) ≡ false
  pub short : ltb limit (count s) ≡ false
  pub clean : any_char is_control s ≡ false

bounded_text-IsNormal :
    (name : String) (limit : ℕ) (allow : Bool) (v : String) {s : String}
    → bounded_text name limit allow v ≡ ok s
    → (strip v ≡ s) × IsNormal limit allow (strip v)
unfolding bounded_text
bounded_text-IsNormal name limit allow v h =
    let (p, h₁) = raise_if->>=-eq-ok _ _ _ h in
    let (q, h₂) = raise_if->>=-eq-ok _ _ _ h₁ in
    let (r, h₃) = raise_if->>=-eq-ok _ _ _ h₂ in
    (cc, record { stripped = strip-strip v; filled = p; short = q; clean = r })

pub bounded_string-IsNormal :
    (name : String) (limit : ℕ) (allow : Bool) (v : Value) {s : String}
    → bounded_string name limit allow v ≡ ok s
    → IsNormal limit allow s
unfolding bounded_string
bounded_string-IsNormal name limit allow (str v) h =
    let (e, n) = bounded_text-IsNormal name limit allow v h in rw e at n
bounded_string-IsNormal name limit allow _ h = cc

-- A normal text is accepted as it is.
pub bounded_string-eq_of_IsNormal :
    (name : String) {limit : ℕ} {allow : Bool} (s : String)
    → IsNormal limit allow s
    → bounded_string name limit allow (str s) ≡ ok s
unfolding bounded_string bounded_text
bounded_string-eq_of_IsNormal name s n = simp (n.stripped, n.filled, n.short, n.clean)

pub bounded_string-eq-strip :
    (name : String) (limit : ℕ) (allow : Bool) (v : String) {s : String}
    → bounded_string name limit allow (str v) ≡ ok s
    → s ≡ strip v
unfolding bounded_string
bounded_string-eq-strip name limit allow v h = sym (bounded_text-IsNormal name limit allow v h).0
