-- ===== src/Basename.antt =====
-- basename of annotated_Dataset-1/basename.c: remove_suffix and perform_basename.
--
-- A string is the list of its bytes. The two pointers of remove_suffix move towards the beginning, so
-- its loop runs on the reversed strings. gnulib's functions on file names are arguments.
use mathlib.Core.List.{reverse}
use lmcas.Base.{
  ℕ, Bool, true, false, not, ◌&&◌, List, [], ◌∷◌, ◌++◌, Option, none, some, Bytes, newline, ◌==◌,
  if◌then◌else◌,
}
pub mod Laws
mod Examples

-- The loop: what is left of the name in front of `np`; none when the name is left as it is.
unfoldable pub compare_back : Bytes → Bytes → Option Bytes
compare_back [] sp = none
compare_back (c ∷ np) [] = some (c ∷ np)
compare_back (c ∷ np) (d ∷ sp) =
    let further = compare_back np sp in if c == d then further else none

unfoldable pub remove_suffix : Bytes → Bytes → Bytes
unfolding compare_back
remove_suffix name suffix = elim (compare_back (reverse name) (reverse suffix)) [
  | none ↦ name
  | some np ↦ reverse np
]

-- What of gnulib decides on a name.
pub record FileNames : Type 0 where
  pub base_name : Bytes → Bytes
  pub strip_trailing_slashes : Bytes → Bytes
  pub is_relative_file_name : Bytes → Bool
  pub has_file_system_prefix : Bytes → Bool

unfoldable pub perform_basename : FileNames → Bytes → Option Bytes → Bool → Bytes
unfolding remove_suffix
perform_basename gnulib string suffix use_nuls =
    let name = gnulib.strip_trailing_slashes (gnulib.base_name string) in
    let ending : Bytes = if use_nuls then 0 ∷ [] else newline ∷ [] in
    elim suffix [
      | none ↦ name ++ ending
      | some text ↦
          if gnulib.is_relative_file_name name && not (gnulib.has_file_system_prefix name)
          then remove_suffix name text ++ ending
          else name ++ ending
    ]
