-- ===== src/Basenc/Wrap.antt =====
-- annotated_Dataset-1/basenc.c: wrap_write, which breaks encoded output into lines.
pub mod Lines
use Prim.Native.Nat.{min}
use lmcas.Base.{
  ℕ, zero, suc, ◌+◌, ◌-◌, ◌*◌, ◌%◌, ◌^◌, Option, none, some, [], ◌∷◌, ◌++◌, Bytes, newline, ◌==◌,
  if◌then◌else◌, length, take, drop,
}

abbrev pub size_max : ℕ
size_max = 2 ^ 64 - 1

-- `MIN (MIN (wrap_column - *current_column, SIZE_MAX), len - written)`, the first difference in
-- the unsigned arithmetic of a uintmax_t; `buffer` is what is not written yet.
unfoldable pub to_write : ℕ → ℕ → Bytes → ℕ
to_write wrap_column current_column buffer =
    let cols_remaining = (wrap_column + 2 ^ 64 - current_column) % 2 ^ 64 in
    min (min cols_remaining size_max) (length buffer)

abbrev pub prepend : Bytes → Option (Bytes × ℕ) → Option (Bytes × ℕ)
prepend text none = none
prepend text (some (more, column)) = some (text ++ more, column)

-- The loop of wrap_write, on fuel: the text written, and `*current_column` at the end. `none`
-- means that the fuel ran out. Failing writes (which end the program) are not modelled.
unfoldable pub wrap_loop : ℕ → ℕ → ℕ → Bytes → Option (Bytes × ℕ)
unfolding to_write
wrap_loop fuel wrap_column column [] = some ([], column)
wrap_loop zero wrap_column column (c ∷ buffer) = none
wrap_loop (suc fuel) wrap_column column (c ∷ buffer) =
    let n = to_write wrap_column column (c ∷ buffer) in
    let broken = prepend (newline ∷ []) (wrap_loop fuel wrap_column 0 (c ∷ buffer)) in
    let written =
      prepend (take n (c ∷ buffer))
        (wrap_loop fuel wrap_column (column + n) (drop n (c ∷ buffer))) in
    if n == 0 then broken else written

-- A round that writes no byte makes the next one write, so two rounds for each byte are enough.
unfoldable pub wrap_write : Bytes → ℕ → ℕ → Option (Bytes × ℕ)
unfolding wrap_loop
wrap_write buffer wrap_column column =
    if wrap_column == 0
    then some (buffer, column)
    else wrap_loop (2 * length buffer) wrap_column column buffer
