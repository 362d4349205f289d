-- ===== src/Comm/Examples.antt =====
-- Runs of the model of comm on concrete files.
use mathlib.Core.Option.{Option}
use mathlib.Core.Option
use Prim.Native.Nat.{Ordering}
use lmcas.Base.{
  suc, ◌+◌, ◌≡◌, refl, true, false, List, [], ◌∷◌, some, Bytes, codes, newline, length,
}
use lmcas.Sort.Compare.{or_else, memcmp, length_diff}
use lmcas.Comm.{CheckOrder, Settings, State, Locale, Run, line_order, compare_files, open_file}
use lmcas.Comm.Laws.{classify, of_file_1, of_file_2}
use lmcas.Comm.Laws.Columns.{Printed}
use lmcas.Comm.Laws.Files.{compare_files-classify}

abbrev settings_of : CheckOrder → Settings
settings_of check_input_order = record {
  only_file_1 = true;
  only_file_2 = true;
  both = true;
  col_sep = codes "\t";
  delim = newline;
  check_input_order = check_input_order;
}

-- gnulib's comparison of two buffers, as a concrete function.
abbrev dictionary : Bytes → Bytes → Ordering
dictionary a b = or_else (memcmp a b) (length_diff a b)

-- The C locale.
abbrev c_locale : Locale
c_locale = record { hard_lc_collate = false; xmemcoll = dictionary; memcmp2 = dictionary }

-- A locale in which only the lengths of lines count.
abbrev by_length : Locale
by_length = record { hard_lc_collate = true; xmemcoll = length_diff; memcmp2 = dictionary }

abbrev fruit_1 : List Bytes
fruit_1 = codes "apple" ∷ codes "fig" ∷ codes "pear" ∷ []

abbrev fruit_2 : List Bytes
fruit_2 = codes "fig" ∷ codes "nut" ∷ []

abbrev out_of : Run → Bytes
out_of (Run.finished st) = st.out
out_of (Run.failed st) = st.out

columns :
    Option.map out_of
      (compare_files (settings_of CheckOrder.check_order_default) c_locale 6 fruit_1 fruit_2)
    ≡ some (codes "apple\n\t\tfig\n\tnut\npear\n")
unfolding compare_files line_order open_file
columns = refl

-- By another collation the lines are merged in another order.
collated :
    Option.map out_of
      (compare_files (settings_of CheckOrder.check_order_disabled) by_length 6 fruit_1 fruit_2)
    ≡ some (codes "\tfig\n\tnut\napple\nfig\npear\n")
unfolding compare_files line_order open_file
collated = refl

-- With --check-order the program ends when a line is out of order.
disorder_ends :
    Option.map out_of (
      compare_files
        (settings_of CheckOrder.check_order_enabled)
        c_locale
        6
        fruit_2
        (codes "z" ∷ codes "b" ∷ []))
    ≡ some (codes "fig\nnut\n\tz\n")
unfolding compare_files line_order open_file
disorder_ends = refl

compare_files-classify_example :
    (st : State) × (compare_files
        (settings_of CheckOrder.check_order_default)
        c_locale
        (suc (length fruit_1 + length fruit_2))
        fruit_1
        fruit_2
      ≡ some (Run.finished st))
    × Printed
        (settings_of CheckOrder.check_order_default)
        []
        0
        0
        0
        (classify c_locale fruit_1 fruit_2)
        st
    × (of_file_1 (classify c_locale fruit_1 fruit_2) ≡ fruit_1)
    × (of_file_2 (classify c_locale fruit_1 fruit_2) ≡ fruit_2)
compare_files-classify_example =
    compare_files-classify (settings_of CheckOrder.check_order_default) c_locale fruit_1 fruit_2
      refl refl
