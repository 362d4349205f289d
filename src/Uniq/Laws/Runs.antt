-- ===== src/Uniq/Laws/Runs.antt =====
-- Both loops of check_file write the runs of the input.
use lmcas.Base.{
  ℕ, suc, ◌+◌, ◌-◌, ◌^◌, ◌<◌, Bool, true, false, not, ◌&&◌, List, [], ◌∷◌, ◌++◌, none, some, Bytes,
  ◌==◌, length, ◌≡◌, refl, sym, ap, ◌∙◌, append-nil, arith, Bool-cases, inl, inr,
}
use lmcas.Uniq.{
  Flags, Item, DelimitMethod, GroupingMethod, writeline, print_loop, count_loop, count_lines,
  check_file, group_start, group_end, is_grouping,
}
use lmcas.Uniq.Laws.{
  differ, push_run, push_run-first, push_run-relabel, relabel, runs, write_runs, same_key,
  loop_same, loop_differs,
}

next_count : (n m : ℕ) → n + 1 + m ≡ n + suc m
next_count n m = omega arith

module _ (field_sep : ℕ → Bool) (memcasecmp : Bytes → Bytes → Bool) (flags : Flags) where
  runs_differs :
      (prev line : Bytes) (lines : List Bytes)
      → differ field_sep memcasecmp flags line prev ≡ true
      → runs field_sep memcasecmp flags (prev ∷ line ∷ lines)
        ≡ (prev, 0) ∷ runs field_sep memcasecmp flags (line ∷ lines)
  unfolding runs
  runs_differs prev line lines e =
      let (m, rest, at) =
        push_run-first field_sep memcasecmp flags line (runs field_sep memcasecmp flags lines) in
      rw at (unfold push_run in rw e refl)

  runs_same :
      (prev line : Bytes) (lines : List Bytes)
      → flags.ignore_case ≡ false
      → differ field_sep memcasecmp flags line prev ≡ false
      → (m : ℕ) × (rest : List (Bytes × ℕ)) × (runs field_sep memcasecmp flags (prev ∷ line ∷ lines)
          ≡ (prev, suc m) ∷ rest)
        × (runs field_sep memcasecmp flags (prev ∷ lines) ≡ (prev, m) ∷ rest)
  unfolding runs
  runs_same prev line lines plain e =
      let r = runs field_sep memcasecmp flags lines in
      let (m, rest, at) = push_run-first field_sep memcasecmp flags line r in
      let key = sym (same_key field_sep memcasecmp flags line prev plain e) in
      (
        m,
        rest,
        rw at (unfold push_run in rw e refl),
        push_run-relabel field_sep memcasecmp flags prev line r key
            ∙ rw at (unfold relabel in refl),
      )

  -- More repeats of the first run.
  add_repeats : ℕ → List (Bytes × ℕ) → List (Bytes × ℕ)
  add_repeats n [] = []
  add_repeats n ((line, repeats) ∷ rest) = (line, n + repeats) ∷ rest

  add_none : (r : List (Bytes × ℕ)) → add_repeats 0 r ≡ r
  unfolding add_repeats
  add_none [] = refl
  add_none ((line, repeats) ∷ rest) =
      let zero_left : 0 + repeats ≡ repeats = omega arith in rw zero_left refl

  add_first :
      (n m : ℕ) (line : Bytes) (rest : List (Bytes × ℕ))
      → add_repeats (n + 1) ((line, m) ∷ rest) ≡ add_repeats n ((line, suc m) ∷ rest)
  unfolding add_repeats
  add_first n m line rest = ap (λ (k : ℕ). (line, k) ∷ rest) (next_count n m)

  module _ (plain : flags.ignore_case ≡ false) (once : flags.output_later_repeated ≡ false)
      (no_groups : flags.delimit_groups ≡ DelimitMethod.dm_none) where
    written_apart :
        (prev line : Bytes) (lines : List Bytes) (n : ℕ)
        → differ field_sep memcasecmp flags line prev ≡ true
        → write_runs field_sep memcasecmp flags
            (add_repeats n (runs field_sep memcasecmp flags (prev ∷ line ∷ lines)))
          ≡ writeline field_sep memcasecmp flags prev false n
            ++ write_runs field_sep memcasecmp flags
                (runs field_sep memcasecmp flags (line ∷ lines))
    unfolding add_repeats
    written_apart prev line lines n e =
        let alone : n + 0 ≡ n = omega arith in rw (runs_differs prev line lines e, alone) refl

    count_loop-runs :
        (lines : List Bytes) (prev : Bytes) (n : ℕ) (first : Bool)
        → n + length lines < 2 ^ 64 - 1
        → count_loop field_sep memcasecmp flags prev n first lines
          ≡ write_runs field_sep memcasecmp flags
              (add_repeats n (runs field_sep memcasecmp flags (prev ∷ lines)))
    count_loop-runs [] prev n first small =
        let alone : n + 0 ≡ n = omega arith in
        unfold count_loop runs push_run add_repeats in
        rw alone (sym (append-nil (writeline field_sep memcasecmp flags prev false n)))
    count_loop-runs (line ∷ lines) prev n first small =
        elim (Bool-cases (differ field_sep memcasecmp flags line prev)) [
          | inl e ↦
              let ih = count_loop-runs lines line 0 first (omega (arith, small)) in
              loop_differs field_sep memcasecmp flags plain once no_groups prev line n first lines e
              ∙ ap (λ (l : List Item). writeline field_sep memcasecmp flags prev false n ++ l)
                  (rw (add_none (runs field_sep memcasecmp flags (line ∷ lines))) at ih)
              ∙ sym (written_apart prev line lines n e)
          | inr e ↦
              let ih = count_loop-runs lines prev (n + 1) first (omega (arith, small)) in
              let (m, rest, all, fewer) = runs_same prev line lines plain e in
              loop_same field_sep memcasecmp flags plain once no_groups prev line n first lines e
                (omega (arith, small))
              ∙ ih
              ∙ rw (all, fewer)
                  (ap (write_runs field_sep memcasecmp flags) (add_first n m prev rest))
        ]

  no_start :
      (g : GroupingMethod) (first : Bool)
      → g ≡ GroupingMethod.gm_none
      → group_start field_sep memcasecmp flags g first ≡ []
  unfolding group_start
  no_start g first e = rw e refl

  no_end :
      (g : GroupingMethod) (first : Bool)
      → g ≡ GroupingMethod.gm_none
      → group_end field_sep memcasecmp flags g first ≡ []
  unfolding group_end
  no_end g first e = rw e refl

  not_grouping : (g : GroupingMethod) → g ≡ GroupingMethod.gm_none → is_grouping g ≡ false
  not_grouping g e = rw e refl

  -- The loop that prints at once writes the first line of each run.
  module _ (plain : flags.ignore_case ≡ false) (unique : flags.output_unique ≡ true)
      (repeated : flags.output_first_repeated ≡ true) (uncounted : flags.count_occurrences ≡ false)
      (ungrouped : flags.grouping ≡ GroupingMethod.gm_none) where
    written :
        (line : Bytes) (n : ℕ)
        → writeline field_sep memcasecmp flags line false n ≡ Item.line_item line ∷ []
    unfolding writeline
    written line n = elim (Bool-cases (n == 0)) [
      | inl e ↦ rw (e, unique, uncounted) refl
      | inr e ↦ rw (e, repeated, uncounted) refl
    ]

    print_differs :
        (prev line : Bytes) (lines : List Bytes)
        → differ field_sep memcasecmp flags line prev ≡ true
        → print_loop field_sep memcasecmp flags (some prev) (line ∷ lines)
          ≡ Item.line_item line ∷ print_loop field_sep memcasecmp flags (some line) lines
    unfolding print_loop
    print_differs prev line lines e =
        rw (e, print_loop, no_start flags.grouping false ungrouped) refl

    print_same :
        (prev line : Bytes) (lines : List Bytes)
        → differ field_sep memcasecmp flags line prev ≡ false
        → print_loop field_sep memcasecmp flags (some prev) (line ∷ lines)
          ≡ print_loop field_sep memcasecmp flags (some prev) lines
    unfolding print_loop
    print_same prev line lines e = rw (e, print_loop, not_grouping flags.grouping ungrouped) refl

    print_loop-runs :
        (lines : List Bytes) (prev : Bytes)
        → Item.line_item prev ∷ print_loop field_sep memcasecmp flags (some prev) lines
          ≡ write_runs field_sep memcasecmp flags (runs field_sep memcasecmp flags (prev ∷ lines))
    print_loop-runs [] prev =
        unfold print_loop runs push_run in
        rw (no_end flags.grouping false ungrouped, written prev 0) refl
    print_loop-runs (line ∷ lines) prev =
        elim (Bool-cases (differ field_sep memcasecmp flags line prev)) [
          | inl e ↦
              rw (print_differs prev line lines e, runs_differs prev line lines e)
                (rw (written prev 0)
                  (ap (λ (l : List Item). Item.line_item prev ∷ l) (print_loop-runs lines line)))
          | inr e ↦
              let ih = print_loop-runs lines prev in
              let (m, rest, all, fewer) = runs_same prev line lines plain e in
              rw (print_same prev line lines e, all, written prev (suc m))
                (rw (fewer, written prev m) at ih)
        ]

  -- Each loop on all lines.
  printed_runs :
      (plain : flags.ignore_case ≡ false) (unique : flags.output_unique ≡ true)
      (repeated : flags.output_first_repeated ≡ true) (uncounted : flags.count_occurrences ≡ false)
      (ungrouped : flags.grouping ≡ GroupingMethod.gm_none) (lines : List Bytes)
      → print_loop field_sep memcasecmp flags none lines
        ≡ write_runs field_sep memcasecmp flags (runs field_sep memcasecmp flags lines)
  unfolding print_loop
  printed_runs plain unique repeated uncounted ungrouped [] =
      no_end flags.grouping true ungrouped ∙ (unfold runs in refl)
  printed_runs plain unique repeated uncounted ungrouped (line ∷ lines) =
      ap
        (λ (l : List Item).
          l ++ Item.line_item line ∷ print_loop field_sep memcasecmp flags (some line) lines)
        (no_start flags.grouping true ungrouped)
      ∙ print_loop-runs plain unique repeated uncounted ungrouped lines line

  counted_runs :
      (plain : flags.ignore_case ≡ false) (once : flags.output_later_repeated ≡ false)
      (no_groups : flags.delimit_groups ≡ DelimitMethod.dm_none) (lines : List Bytes)
      → length lines < 2 ^ 64
      → count_lines field_sep memcasecmp flags lines
        ≡ write_runs field_sep memcasecmp flags (runs field_sep memcasecmp flags lines)
  counted_runs plain once no_groups [] small = unfold runs in refl
  counted_runs plain once no_groups (line ∷ lines) small =
      count_loop-runs plain once no_groups lines line 0 true (omega (arith, small))
      ∙ ap (write_runs field_sep memcasecmp flags)
          (add_none (runs field_sep memcasecmp flags (line ∷ lines)))

-- Whether the loop that prints at once is taken.
abbrev at_once : Flags → Bool
at_once flags = flags.output_unique && (flags.output_first_repeated && not flags.count_occurrences)

all_three : (p q r : Bool) → (p && (q && not r)) ≡ true → (p ≡ true) × (q ≡ true) × (r ≡ false)
all_three true true false h = (refl, refl, refl)
all_three true true true h = cc h
all_three true false r h = cc h
all_three false q r h = cc h

-- Without -i, -D, --group and --all-repeated, and for fewer lines than 2 ^ 64, check_file writes
-- for each run of adjacent lines whose compared characters are equal its first line, with the number
-- of repeats: whichever of its two loops it takes.
pub check_file-runs :
    (field_sep : ℕ → Bool) (memcasecmp : Bytes → Bytes → Bool) (flags : Flags) (lines : List Bytes)
    → flags.ignore_case ≡ false
    → flags.output_later_repeated ≡ false
    → flags.delimit_groups ≡ DelimitMethod.dm_none
    → flags.grouping ≡ GroupingMethod.gm_none
    → length lines < 2 ^ 64
    → check_file field_sep memcasecmp flags lines
      ≡ write_runs field_sep memcasecmp flags (runs field_sep memcasecmp flags lines)
unfolding check_file
check_file-runs field_sep memcasecmp flags lines plain once no_groups ungrouped small =
    elim (Bool-cases (at_once flags)) [
      | inl e ↦
          let (unique, repeated, uncounted) =
            all_three flags.output_unique flags.output_first_repeated flags.count_occurrences e in
          rw e (
            printed_runs field_sep memcasecmp flags plain unique repeated uncounted ungrouped lines)
      | inr e ↦ rw e (counted_runs field_sep memcasecmp flags plain once no_groups lines small)
    ]
