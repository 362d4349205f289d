-- ===== src/Realpath.antt =====
-- realpath of annotated_Dataset-1/realpath.c: path_prefix, realpath_canon and process_path.
--
-- A path is the list of its bytes; the byte behind its end is NUL, which no test accepts. gnulib's
-- canonicalization and relpath are arguments; CAN_NOLINKS is an argument of the former.
use lmcas.Base.{
  ℕ, Bool, true, false, not, ◌&&◌, ◌||◌, List, [], ◌∷◌, ◌++◌, Option, none, some, Bytes, newline,
  ◌==◌, if◌then◌else◌,
}
pub mod Laws
pub mod Relative
mod Examples

-- `*path == '/'`
unfoldable pub is_at_slash : Bytes → Bool
is_at_slash [] = false
is_at_slash (c ∷ path) = c == b'/'

-- The loop of path_prefix and the test behind it.
unfoldable pub prefix_loop : Bytes → Bytes → Bool
prefix_loop [] [] = true
prefix_loop [] (d ∷ path) = d == b'/'
prefix_loop (c ∷ prefix) [] = false
prefix_loop (c ∷ prefix) (d ∷ path) =
    let further = prefix_loop prefix path in if c == d then further else false

-- The paths behind their first slashes.
unfoldable pub path_prefix : Bytes → Bytes → Bool
unfolding is_at_slash prefix_loop
path_prefix [] path = not (is_at_slash path)
path_prefix (c ∷ []) path = if c == b'/' then is_at_slash path else prefix_loop (c ∷ []) path
path_prefix (c ∷ d ∷ prefix) path = prefix_loop (c ∷ d ∷ prefix) path

-- The options that decide what is printed, with the canonical names of the directories.
pub record Settings : Type 0 where
  pub verbose : Bool
  pub logical : Bool
  pub use_nuls : Bool
  pub can_relative_to : Option Bytes
  pub can_relative_base : Option Bytes

-- gnulib: canonicalize_filename_mode, with or without CAN_NOLINKS; and what relpath prints, if it can.
pub record FileNames : Type 0 where
  pub canonicalize : Bool → Bytes → Option Bytes
  pub relpath : Bytes → Bytes → Option Bytes

abbrev pub behind_slash : Bytes → Bytes
behind_slash [] = []
behind_slash (c ∷ path) = path

module _ (gnulib : FileNames) (settings : Settings) (no_links : Bool) where
  unfoldable pub realpath_canon : Bytes → Option Bytes
  realpath_canon fname = elim (gnulib.canonicalize no_links fname) [
    | none ↦ none
    | some can_fname ↦
        if settings.logical then gnulib.canonicalize false can_fname else some can_fname
  ]

  -- `can_relative_base && !path_prefix (can_relative_base, can_fname)`
  unfoldable pub is_outside : Option Bytes → Bytes → Bool
  unfolding path_prefix
  is_outside none can_fname = false
  is_outside (some base) can_fname = not (path_prefix (behind_slash base) (behind_slash can_fname))

  -- The name that is printed.
  unfoldable pub printed_name : Bytes → Bytes
  unfolding is_outside
  printed_name can_fname = elim settings.can_relative_to [
    | none ↦ can_fname
    | some directory ↦
        if is_outside settings.can_relative_base can_fname
        then can_fname
        else elim (gnulib.relpath can_fname directory) [ none ↦ can_fname | some path ↦ path ]
  ]

  -- What is printed, and whether it went well; the diagnostic is left out.
  unfoldable pub process_path : Bytes → Bytes × Bool
  unfolding realpath_canon printed_name
  process_path fname = elim (realpath_canon fname) [
    | none ↦ ([], false)
    | some can_fname ↦
        (printed_name can_fname ++ (if settings.use_nuls then 0 ∷ [] else newline ∷ []), true)
  ]
