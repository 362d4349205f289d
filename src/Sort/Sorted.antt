-- ===== src/Sort/Sorted.antt =====
-- What sort promises: sequential_sort with sort's own comparison.
use Prim.Native.Nat.{Ordering}
use lmcas.Base.{ℕ, ◌≤◌, ◌≡◌, Bool, Bytes, List, keep, some, arith}
use mathlib.Core.List.{Perm}
use lmcas.Sort.Order.{IsPreorder, stable_sort}
use lmcas.Sort.Order.Stable.{
  IsSorted, equal, stable_sort-IsSorted, stable_sort-perm, stable_sort-keep,
}
use lmcas.Sort.Sequential.{Arrays, sequential_sort}
use lmcas.Sort.Sequential.Merge.{IsOutside, segment}
use lmcas.Sort.Sequential.Laws.{target, place, room, sequential_sort_lem}
use lmcas.Sort.Compare.{Options, compare}
use lmcas.Sort.Compare.Laws.Preorder.{AllFit, compare-IsPreorder}

-- `output` is `input` in order, and lines that compare equal keep their order.
pub record IsStableSortOf {ℓ} {A : Type ℓ} (order : A → A → Ordering) (input output : List A)
    : Type ℓ where
  pub ordered : IsSorted order output
  pub permuted : Perm output input
  pub equals_kept : (a : A) → keep (equal order a) output ≡ keep (equal order a) input

stable_sort-IsStableSortOf {ℓ} :
    {A : Type ℓ} (order : A → A → Ordering) (input : List A)
    → IsPreorder order
    → IsStableSortOf order input (stable_sort order input)
stable_sort-IsStableSortOf order input preorder = record {
  ordered = stable_sort-IsSorted order preorder input;
  permuted = stable_sort-perm order preorder input;
  equals_kept = λ a. stable_sort-keep order preorder a input;
}

-- In the C locale, with at least two lines and as much fuel as there are lines, sequential_sort
-- ends with the lines in the order of compare at its target, lines that compare equal in the order
-- of the input, for all options and all keys that compare bytes and with which no pointer into a
-- line wraps; and it changes no other cell than those of the lines and of the room in the second
-- array: as many as the lines when they go there, and half as many when not.
pub sequential_sort-compare :
    (options : Options) (m : Arrays Bytes) (lines nlines temp : ℕ) (to_temp : Bool)
    → AllFit options
    → 2 ≤ nlines
    → (m' : Arrays Bytes) × (sequential_sort (compare options) nlines m lines nlines temp to_temp
        ≡ some m')
      × IsStableSortOf
          (compare options)
          (segment m.lines lines nlines)
          (segment (target m' to_temp) (place lines temp to_temp) nlines)
      × ((q : ℕ) → IsOutside q lines nlines → m'.lines q ≡ m.lines q)
      × ((q : ℕ) → IsOutside q temp (room nlines to_temp) → m'.temp q ≡ m.temp q)
sequential_sort-compare options m lines nlines temp to_temp fit two =
    let preorder = compare-IsPreorder options fit in
    let (m', ends, done) =
      sequential_sort_lem (compare options) preorder nlines m lines nlines temp to_temp two
        (omega arith) in
    (
      m',
      ends,
      rw done.sorted
          (stable_sort-IsStableSortOf (compare options) (segment m.lines lines nlines) preorder),
      done.lines_kept,
      done.temp_kept,
    )
