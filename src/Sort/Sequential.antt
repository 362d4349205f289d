-- ===== src/Sort/Sequential.antt =====
-- annotated_Dataset-1/sort.c: mergelines and sequential_sort, which sort an array of lines in place
-- with room for half as many lines, or into a second array.
--
-- The arrays of the program are in reverse order, and its pointers point just past them. Here a
-- pointer is a number, cell `p + k` of an array is what the program writes `p[-1 - k]`, and an array
-- is a function from numbers to lines. `lines` points into one array and `temp` into another.
pub mod Merge
pub mod Laws
use Prim.Native.Nat.{Ordering}
use lmcas.Base.{
  ℕ, zero, suc, ◌+◌, ◌-◌, ◌/◌, Bool, true, false, not, Option, none, some, ltb, ◌==◌, if◌then◌else◌,
}
use lmcas.Sort.Order.{at_most}

module _ {ℓ} {A : Type ℓ} where
  -- `*p = v`
  abbrev pub store : (ℕ → A) → ℕ → A → ℕ → A
  store array p v q = if q == p then v else array q

  -- `do *--t = *--lo; while (--nlo);`
  unfoldable pub copy_lo : ℕ → (ℕ → A) → ℕ → (ℕ → A) → ℕ → (ℕ → A)
  copy_lo zero dest t lo_array lo = dest
  copy_lo (suc nlo) dest t lo_array lo =
      copy_lo nlo (store dest t (lo_array lo)) (t + 1) lo_array (lo + 1)

-- Both arrays, `lines` and `temp`.
pub record Arrays {ℓ} (A : Type ℓ) : Type ℓ where
  pub lines : ℕ → A
  pub temp : ℕ → A

module _ {ℓ} {A : Type ℓ} (compare : A → A → Ordering) where
  -- The loop of mergelines, by the lines that are left in LO and in HI. HI is a part of the array
  -- that T points into. With no line left in LO it returns, and with none left in HI it copies LO.
  unfoldable pub merge_loop : ℕ → ℕ → (ℕ → A) → ℕ → (ℕ → A) → ℕ → ℕ → (ℕ → A)
  merge_loop zero nhi dest t lo_array lo hi = dest
  merge_loop (suc nlo) zero dest t lo_array lo hi = copy_lo (suc nlo) dest t lo_array lo
  merge_loop (suc nlo) (suc nhi) dest t lo_array lo hi =
      elim (at_most (compare (lo_array lo) (dest hi))) [
        | true ↦ merge_loop nlo (suc nhi) (store dest t (lo_array lo)) (t + 1) lo_array (lo + 1) hi
        | false ↦ merge_loop (suc nlo) nhi (store dest t (dest hi)) (t + 1) lo_array lo (hi + 1)
      ]

  unfoldable pub mergelines : (ℕ → A) → ℕ → ℕ → (ℕ → A) → ℕ → (ℕ → A)
  unfolding merge_loop copy_lo
  mergelines dest t nlines lo_array lo =
      let nlo = nlines / 2 in merge_loop nlo (nlines - nlo) dest t lo_array lo (t + nlo)

  -- The case of two lines.
  unfoldable pub sort_two : Arrays A → ℕ → ℕ → Bool → Arrays A
  sort_two m lines temp to_temp =
      let swap = not (at_most (compare (m.lines lines) (m.lines (lines + 1)))) in
      if to_temp
      then record m {
        temp =
            store (store m.temp temp (m.lines (if swap then lines + 1 else lines))) (temp + 1)
              (m.lines (if swap then lines else lines + 1));
      }
      else if swap
      then record {
        lines =
            store (store m.lines lines (m.lines (lines + 1))) (lines + 1)
              (store m.temp temp (m.lines lines) temp);
        temp = store m.temp temp (m.lines lines);
      }
      else m

  -- `else if (!to_temp) temp[-1] = lo[-1];` when LO is one line.
  unfoldable pub place_one : Arrays A → ℕ → ℕ → Bool → Arrays A
  place_one m lo temp to_temp =
      if to_temp then m else record m { temp = store m.temp temp (m.lines lo) }

  unfoldable pub merge_parts : Arrays A → ℕ → ℕ → ℕ → Bool → Arrays A
  unfolding mergelines
  merge_parts m lines nlines temp to_temp =
      if to_temp
      then record m { temp = mergelines m.temp temp nlines m.lines lines }
      else record m { lines = mergelines m.lines lines nlines m.temp temp }

  -- On fuel for the depth of the calls; `none` when it runs out.
  unfoldable pub sequential_sort : ℕ → Arrays A → ℕ → ℕ → ℕ → Bool → Option (Arrays A)
  unfolding sort_two place_one merge_parts
  sequential_sort zero m lines nlines temp to_temp = none
  sequential_sort (suc fuel) m lines nlines temp to_temp = elim (nlines == 2) [
    | true ↦ some (sort_two m lines temp to_temp)
    | false ↦
        let nlo = nlines / 2 in
        let hi =
          sequential_sort fuel m (lines + nlo) (nlines - nlo) (if to_temp then temp + nlo else temp)
            to_temp in
        elim hi [
          | none ↦ none
          | some m' ↦
              let lo = sequential_sort fuel m' lines nlo temp (not to_temp) in
              elim (if ltb 1 nlo then lo else some (place_one m' lines temp to_temp)) [
                | none ↦ none
                | some m'' ↦ some (merge_parts m'' lines nlines temp to_temp)
              ]
        ]
  ]
