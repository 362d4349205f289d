-- ===== src/Base/Octets.antt =====
-- Bytes as numbers, byte strings, and facts about all bytes checked by evaluation.
use Prim.Native.Nat.{ℕ, zero, suc, ◌<◌}
use Prim.Native.Char.{code}
use Prim.Native.String.{String}
use mathlib.Core.Path.{◌≡◌}
use mathlib.Core.Bool.{Bool, true, ◌&&◌}
use mathlib.Core.List.{List, [], ◌∷◌}
use native.Mathlib.Omega.{arith}

abbrev pub Bytes : Type 0
Bytes = List ℕ

abbrev pub IsByte : ℕ → Type 0
IsByte b = b < 256

-- The bytes of an ASCII literal.
abbrev pub codes : String → Bytes
codes String.[] = []
codes (String.◌∷◌ c s) = code c ∷ codes s

abbrev pub newline : ℕ
newline = b'\n'

-- A test holds of every number under a bound: evaluation proves it where the bound is a numeral.
unfoldable pub checked_below : ℕ → (ℕ → Bool) → Bool
checked_below zero test = true
checked_below (suc top) test = checked_below top test && test top

last_or_below :
    (top i : ℕ) (rest : Bool) (test : ℕ → Bool)
    → (rest && test top) ≡ true
    → (i < top → rest ≡ true → test i ≡ true)
    → i < suc top
    → test i ≡ true
last_or_below top i rest test both below inside = ground (arith, both)

pub checked_below_lem :
    (bound : ℕ) (test : ℕ → Bool) (i : ℕ)
    → checked_below bound test ≡ true
    → i < bound
    → test i ≡ true
unfolding checked_below
checked_below_lem zero test i e inside = elim inside [ ]
checked_below_lem (suc top) test i e inside =
    last_or_below top i (checked_below top test) test e
      (λ under e'. checked_below_lem top test i e' under) inside
