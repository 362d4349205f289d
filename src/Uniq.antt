-- ===== src/Uniq.antt =====
-- uniq of annotated_Dataset-1/uniq.c.
--
-- The input is the list of its lines without their delimiters, as gnulib's readlinebuffer_delim
-- gives them; the output is the list of what is written. field_sep of coreutils' system.h and
-- gnulib's memcasecmp are arguments: `memcasecmp a b` is whether it gives a number that is not 0.
use Prim.Native.Nat.{Ordering}
use lmcas.Base.{
  ℕ, zero, suc, ◌+◌, ◌-◌, ◌^◌, Bool, true, false, not, ◌&&◌, ◌||◌, List, [], ◌∷◌, ◌++◌, Option,
  none, some, Bytes, ◌==◌, if◌then◌else◌, length, take, drop,
}
use lmcas.Sort.Fields.{begin_words}
use lmcas.Sort.Compare.{memcmp}
pub mod Laws
mod Examples

pub data DelimitMethod : Type 0 where
  dm_none dm_prepend dm_separate : DelimitMethod

pub data GroupingMethod : Type 0 where
  gm_none gm_prepend gm_append gm_separate gm_both : GroupingMethod

pub record Flags : Type 0 where
  pub skip_fields : ℕ
  pub skip_chars : ℕ
  pub check_chars : ℕ
  pub ignore_case : Bool
  pub output_unique : Bool
  pub output_first_repeated : Bool
  pub output_later_repeated : Bool
  pub count_occurrences : Bool
  pub delimit_groups : DelimitMethod
  pub grouping : GroupingMethod

-- What is written: a line with its delimiter, the number that goes in front of a line with -c, or
-- a delimiter between groups.
pub data Item : Type 0 where
  line_item : Bytes → Item
  count_item : ℕ → Item
  delimiter_item : Item

abbrev pub is_nonzero : Ordering → Bool
is_nonzero Ordering.lt = true
is_nonzero Ordering.eq = false
is_nonzero Ordering.gt = true

unfoldable pub is_delimiting : DelimitMethod → Bool
is_delimiting DelimitMethod.dm_none = false
is_delimiting DelimitMethod.dm_prepend = true
is_delimiting DelimitMethod.dm_separate = true

abbrev pub is_grouping : GroupingMethod → Bool
is_grouping GroupingMethod.gm_none = false
is_grouping GroupingMethod.gm_prepend = true
is_grouping GroupingMethod.gm_append = true
is_grouping GroupingMethod.gm_separate = true
is_grouping GroupingMethod.gm_both = true

module _ (field_sep : ℕ → Bool) (memcasecmp : Bytes → Bytes → Bool) (flags : Flags) where
  -- From the field that is found to the end of the line. The loop over the fields is that of begfield.
  unfoldable pub find_field : Bytes → Bytes
  unfolding begin_words
  find_field line = drop flags.skip_chars (begin_words field_sep none flags.skip_fields line)

  -- Of the bytes that OLDLEN and NEWLEN leave.
  unfoldable pub different_chars : Bytes → Bytes → Bool
  unfolding memcmp
  different_chars old new =
      not (length old == length new)
      || (if flags.ignore_case then memcasecmp old new else is_nonzero (memcmp old new))

  unfoldable pub different : Bytes → Bytes → Bool
  unfolding different_chars
  different old new = different_chars (take flags.check_chars old) (take flags.check_chars new)

  unfoldable pub writeline : Bytes → Bool → ℕ → List Item
  writeline line match linecount =
      let written =
        if linecount == 0
        then flags.output_unique
        else if not match
        then flags.output_first_repeated
        else flags.output_later_repeated in
      if written
      then (if flags.count_occurrences then count_item (linecount + 1) ∷ [] else [])
        ++ line_item line ∷ []
      else []

  -- A delimiter in front of a group. `first` is whether no group was printed yet.
  unfoldable pub group_start : GroupingMethod → Bool → List Item
  group_start GroupingMethod.gm_none first = []
  group_start GroupingMethod.gm_prepend first = delimiter_item ∷ []
  group_start GroupingMethod.gm_append first = if first then [] else delimiter_item ∷ []
  group_start GroupingMethod.gm_separate first = if first then [] else delimiter_item ∷ []
  group_start GroupingMethod.gm_both first = delimiter_item ∷ []

  unfoldable pub group_end : GroupingMethod → Bool → List Item
  group_end GroupingMethod.gm_none first = []
  group_end GroupingMethod.gm_prepend first = []
  group_end GroupingMethod.gm_append first = if first then [] else delimiter_item ∷ []
  group_end GroupingMethod.gm_separate first = []
  group_end GroupingMethod.gm_both first = if first then [] else delimiter_item ∷ []

  abbrev pub starts_group : Option Bytes → Bytes → Bool
  starts_group none line = true
  starts_group (some prev) line = different (find_field line) (find_field prev)

  -- The loop that prints each line right away. `prev` is none before the first line.
  unfoldable pub print_loop : Option Bytes → List Bytes → List Item
  unfolding group_start group_end different find_field
  print_loop none [] = group_end flags.grouping true
  print_loop (some prev) [] = group_end flags.grouping false
  print_loop none (line ∷ lines) =
      group_start flags.grouping true ++ line_item line ∷ print_loop (some line) lines
  print_loop (some prev) (line ∷ lines) =
      let next = print_loop (some line) lines in
      let same = print_loop (some prev) lines in
      if starts_group (some prev) line
      then group_start flags.grouping false ++ line_item line ∷ next
      else if is_grouping flags.grouping
      then line_item line ∷ next
      else same

  -- `match_count += match`, and at UINTMAX_MAX one less: `if (count_occurrences)` tests the
  -- enumerator, which is 0, so the program does not end here.
  abbrev pub count_match : Bool → ℕ → ℕ
  count_match match match_count =
      if match
      then (if match_count + 1 == 2 ^ 64 - 1 then match_count else match_count + 1)
      else match_count

  -- What delimit_groups puts between groups of repeated lines.
  unfoldable pub delimit : DelimitMethod → Bool → ℕ → Bool → List Item
  delimit DelimitMethod.dm_none match match_count first_delimiter = []
  delimit DelimitMethod.dm_prepend match match_count first_delimiter =
      if match && (match_count == 1) then delimiter_item ∷ [] else []
  delimit DelimitMethod.dm_separate match match_count first_delimiter =
      if match && (match_count == 1) && not first_delimiter then delimiter_item ∷ [] else []

  -- The loop that waits for the next line.
  unfoldable pub count_loop : Bytes → ℕ → Bool → List Bytes → List Item
  unfolding writeline delimit is_delimiting different find_field
  count_loop prev match_count first_delimiter [] = writeline prev false match_count
  count_loop prev match_count first_delimiter (line ∷ lines) =
      let match = not (different (find_field line) (find_field prev)) in
      let counted = count_match match match_count in
      let first =
        if is_delimiting flags.delimit_groups && (not match && not (counted == 0))
        then false
        else first_delimiter in
      let further = count_loop line counted first lines in
      let fresh = count_loop line 0 first lines in
      let waiting = count_loop prev counted first lines in
      delimit flags.delimit_groups match counted first
      ++ (if not match
          then writeline prev match counted ++ fresh
          else if flags.output_later_repeated
          then writeline prev match counted ++ further
          else waiting)

  abbrev pub count_lines : List Bytes → List Item
  count_lines [] = []
  count_lines (line ∷ rest) = count_loop line 0 true rest

  unfoldable pub check_file : List Bytes → List Item
  unfolding print_loop count_loop
  check_file lines =
      if flags.output_unique && (flags.output_first_repeated && not flags.count_occurrences)
      then print_loop none lines
      else count_lines lines
