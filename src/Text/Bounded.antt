-- ===== src/Text/Bounded.antt =====
-- The bounded texts of src/pasi/core/events.py and src/pasi/core/ledger.py, which differ from those of
-- the operation state in that a tab is no control character.
use Prim.Native.String.{count}
use pasi_engineering_workspa.Prelude.{
  ℕ, Bool, not, ◌&&◌, String, Result, ok, raise_if, ◌>>◌, ltb, ◌==◌,
}
use pasi_engineering_workspa.Text.{strip, is_blank, any_char}

pub data TextFault : Type 0 where
  empty too_long control_characters : TextFault

-- `ord(char) < 32 and char not in "\t"`
unfoldable pub is_control_but_tab : ℕ → Bool
is_control_but_tab c = ltb c 32 && not (c == 9)

unfoldable pub check_text : ℕ → Bool → String → Result TextFault String
unfolding is_control_but_tab
check_text limit allow_empty value = do
  let normalized = strip value
  raise_if (not allow_empty && is_blank normalized) empty
  raise_if (ltb limit (count normalized)) too_long
  raise_if (any_char is_control_but_tab normalized) control_characters
  ok normalized
