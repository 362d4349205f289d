-- ===== src/Fmt/Tagged.antt =====
-- set_other_indent: in tagged mode a line never begins where the first one does.
use lmcas.Base.{ℕ, Bool, true, false, ◌≡◌, ◌≢◌, arith}
use lmcas.Fmt.Input.{Modes, set_other_indent}

-- When only tagged mode is on, set_other_indent leaves an indent for the lines behind the first that
-- is not the indent of the first.
pub set_other_indent-tagged :
    (modes : Modes) (same_paragraph : Bool) (first_indent other_indent in_column : ℕ)
    → modes.split ≡ false
    → modes.crown ≡ false
    → modes.tagged ≡ true
    → set_other_indent modes same_paragraph first_indent other_indent in_column ≢ first_indent
unfolding set_other_indent
set_other_indent-tagged modes same_paragraph first_indent other_indent in_column s c t e =
    ground (arith, s, c, t, e)
