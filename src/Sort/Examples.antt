-- ===== src/Sort/Examples.antt =====
-- Runs of the models of sort on concrete lines.
use lmcas.Base.{
  ℕ, ◌-◌, ◌^◌, ◌≡◌, ◌↔◌, refl, Bool, true, false, List, [], ◌∷◌, none, some, Bytes, codes, get_or,
  arith,
}
use lmcas.Base.{◌==◌, ◌||◌}
use mathlib.Core.Option.{Option}
use mathlib.Core.Option
use lmcas.Sort.Sequential.{Arrays, sequential_sort}
use lmcas.Sort.Sequential.Merge.{IsOutside, segment}
use lmcas.Sort.Fields.{size_max, Place, KeyField, key_text}
use lmcas.Sort.Fields.Laws.{split_fields, key_text-split_fields}
use lmcas.Sort.Compare.{Options, compare, key_diff}
use lmcas.Sort.Compare.Laws.{dictionary}
use lmcas.Sort.Compare.Laws.Keys.{key_bytes, key_diff-dictionary}
use lmcas.Sort.Compare.Laws.Preorder.{AllFit, compare-IsPreorder}
use lmcas.Sort.Order.{IsPreorder}
use lmcas.Sort.Check.{Buffer, check}
use lmcas.Sort.Check.Laws.{IsInOrder, all_lines, check_iff_IsInOrder}
use lmcas.Sort.Sorted.{IsStableSortOf, sequential_sort-compare}

abbrev is_blank : ℕ → Bool
is_blank c = c == b' ' || c == b'\t'

-- `-k 2,2`
abbrev second : KeyField
second = record {
  sword = 1;
  schar = 0;
  eword = 1;
  echar = 0;
  ignore = none;
  translate = none;
  skipsblanks = false;
  skipeblanks = false;
  reverse = false;
}

-- A line in low memory, with zeros in front of it.
abbrev some_place : Place
some_place = record {
  address = λ ptr. 4096;
  wrapped = λ count ptr. 0 ∷ ptr;
  is_address = λ ptr. omega arith;
}

-- `sort -t : -k 2,2 -s`
abbrev by_second : Options
by_second = record {
  place_a = some_place;
  place_b = some_place;
  blanks = is_blank;
  tab = some b':';
  keylist = second ∷ [];
  unique = false;
  stable = true;
  reverse = false;
}

abbrev some_lines : List Bytes
some_lines = codes "c:2" ∷ codes "a:3" ∷ codes "b:2" ∷ codes "d:1" ∷ []

abbrev some_arrays : Arrays Bytes
some_arrays = record { lines = λ p. get_or some_lines p []; temp = λ p. [] }

field_of_line : key_text is_blank some_place (some b':') second (codes "a:3:x") ≡ codes "3"
unfolding key_text
field_of_line = refl

-- With `-k 2.18446744073709551615` the key begins in front of the field.
wrapped_key :
    key_text is_blank some_place
      (some b':')
      (record second { schar = 2 ^ 64 - 2; eword = size_max })
      (codes "a:3")
    ≡ 0 ∷ codes "3"
unfolding key_text
wrapped_key = refl

by_second-AllFit : AllFit by_second
by_second-AllFit = ((λ ptr. (omega arith, omega arith), λ ptr. (omega arith, omega arith)), tt)

sorted_lines :
    Option.map
      (λ (m : Arrays Bytes). segment m.lines 0 4)
      (sequential_sort (compare by_second) 4 some_arrays 0 4 0 false)
    ≡ some (codes "d:1" ∷ codes "c:2" ∷ codes "b:2" ∷ codes "a:3" ∷ [])
unfolding sequential_sort segment compare
sorted_lines = refl

sequential_sort-compare_example :
    (m' : Arrays Bytes) × (sequential_sort (compare by_second) 4 some_arrays 0 4 0 false ≡ some m')
    × IsStableSortOf (compare by_second) (segment some_arrays.lines 0 4) (segment m'.lines 0 4)
    × ((q : ℕ) → IsOutside q 0 4 → m'.lines q ≡ some_arrays.lines q)
    × ((q : ℕ) → IsOutside q 0 2 → m'.temp q ≡ some_arrays.temp q)
sequential_sort-compare_example =
    sequential_sort-compare by_second some_arrays 0 4 0 false by_second-AllFit (omega arith)

compare-IsPreorder_example : IsPreorder (compare by_second)
compare-IsPreorder_example = compare-IsPreorder by_second by_second-AllFit

key_diff-dictionary_example :
    key_diff second (codes "10") (codes "9")
    ≡ dictionary (key_bytes second (codes "10")) (key_bytes second (codes "9"))
key_diff-dictionary_example = key_diff-dictionary second (codes "10") (codes "9")

key_text-split_fields_example :
    key_text is_blank some_place (some b':') second (codes "a:3:x")
    ≡ get_or (split_fields b':' (codes "a:3:x")) 1 []
key_text-split_fields_example =
    key_text-split_fields is_blank some_place b':' second (codes "a:3:x") 1 (omega arith) refl refl
      refl refl refl

-- Two buffers, in order by the second field.
abbrev some_buffers : List Buffer
some_buffers =
    record { first = codes "d:1"; others = codes "c:2" ∷ [] }
    ∷ record { first = codes "b:2"; others = [] }
    ∷ []

check_run :
    (check by_second none some_buffers ≡ true)
    × (check (record by_second { unique = true }) none some_buffers ≡ false)
unfolding check compare
check_run = (refl, refl)

check_iff_IsInOrder_example :
    (check by_second none some_buffers ≡ true) ↔ IsInOrder by_second (all_lines some_buffers)
check_iff_IsInOrder_example = check_iff_IsInOrder by_second some_buffers by_second-AllFit
