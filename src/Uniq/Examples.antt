-- ===== src/Uniq/Examples.antt =====
-- Runs of the model of uniq on concrete lines.
use lmcas.Base.{
  ℕ, ◌^◌, ◌-◌, ◌≡◌, refl, Bool, true, false, ◌||◌, ◌==◌, List, [], ◌∷◌, Bytes, codes, arith,
}
use lmcas.Uniq.{Flags, Item, DelimitMethod, GroupingMethod, check_file}
use lmcas.Uniq.Laws.{runs, write_runs}
use lmcas.Uniq.Laws.Runs.{check_file-runs}

abbrev is_blank : ℕ → Bool
is_blank c = c == b' ' || c == b'\t'

abbrev never : Bytes → Bytes → Bool
never a b = false

-- `uniq -c -f 1`
abbrev counting : Flags
counting = record {
  skip_fields = 1;
  skip_chars = 0;
  check_chars = 2 ^ 64 - 1;
  ignore_case = false;
  output_unique = true;
  output_first_repeated = true;
  output_later_repeated = false;
  count_occurrences = true;
  delimit_groups = DelimitMethod.dm_none;
  grouping = GroupingMethod.gm_none;
}

abbrev some_lines : List Bytes
some_lines = codes "1 a" ∷ codes "2 a" ∷ codes "3 b" ∷ []

counted :
    check_file is_blank never counting some_lines
    ≡ Item.count_item 2
      ∷ Item.line_item (codes "1 a")
      ∷ Item.count_item 1
      ∷ Item.line_item (codes "3 b")
      ∷ []
unfolding check_file
counted = refl

-- `uniq -f 1 --group=both`
grouped :
    check_file is_blank never
      (record counting { count_occurrences = false; grouping = GroupingMethod.gm_both })
      some_lines
    ≡ Item.delimiter_item
      ∷ Item.line_item (codes "1 a")
      ∷ Item.line_item (codes "2 a")
      ∷ Item.delimiter_item
      ∷ Item.line_item (codes "3 b")
      ∷ Item.delimiter_item
      ∷ []
unfolding check_file
grouped = refl

check_file-runs_example :
    check_file is_blank never counting some_lines
    ≡ write_runs is_blank never counting (runs is_blank never counting some_lines)
check_file-runs_example =
    check_file-runs is_blank never counting some_lines refl refl refl refl (omega arith)
