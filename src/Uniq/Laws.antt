-- ===== src/Uniq/Laws.antt =====
-- check_file writes the runs of equal lines: the first line of each, with its count.
pub mod Runs
use Prim.Native.Nat.{Ordering}
use lmcas.Base.{
  ℕ, zero, suc, ◌+◌, ◌-◌, ◌^◌, ◌<◌, ◌≤◌, Bool, true, false, not, ◌&&◌, ◌||◌, List, [], ◌∷◌, ◌++◌,
  none, some, Bytes, ◌==◌, if◌then◌else◌, length, take, ◌≡◌, ◌⊎◌, refl, sym, ap, ◌∙◌, append-nil,
  arith, Bool-cases, inl, inr,
}
use lmcas.Sort.Compare.{memcmp, length_diff, or_else}
use lmcas.Sort.Compare.Laws.{dictionary_equal, memcmp-dictionary}
use lmcas.Uniq.{
  Flags, Item, DelimitMethod, GroupingMethod, is_nonzero, find_field, different_chars, different,
  writeline, print_loop, count_loop, check_file, group_start, group_end, delimit, is_delimiting,
  is_grouping,
}

same_length : (a b : Bytes) → (length a == length b) ≡ true → length_diff a b ≡ Ordering.eq
unfolding length_diff
same_length a b l = ground (arith, l)

-- Lines of one length that memcmp does not tell apart are equal.
memcmp_equal :
    (a b : Bytes) → (length a == length b) ≡ true → is_nonzero (memcmp a b) ≡ false → a ≡ b
memcmp_equal a b l m =
    dictionary_equal a b
      (sym (memcmp-dictionary a b) ∙ both_zero (memcmp a b) (length_diff a b) m (same_length a b l))
  where
    both_zero :
        (p q : Ordering) → is_nonzero p ≡ false → q ≡ Ordering.eq → or_else p q ≡ Ordering.eq
    both_zero Ordering.lt q hp hq = cc hp
    both_zero Ordering.eq q hp hq = hq
    both_zero Ordering.gt q hp hq = cc hp

pub if_false {ℓ} : {A : Type ℓ} (c : Bool) (x y : A) → c ≡ false → (if c then x else y) ≡ y
if_false true x y e = cc e
if_false false x y e = refl

module _ (field_sep : ℕ → Bool) (memcasecmp : Bytes → Bytes → Bool) (flags : Flags) where
  -- What is compared of a line.
  abbrev pub key_of : Bytes → Bytes
  key_of line = take flags.check_chars (find_field field_sep memcasecmp flags line)

  abbrev pub differ : Bytes → Bytes → Bool
  differ later earlier =
      different field_sep memcasecmp flags (find_field field_sep memcasecmp flags later)
        (find_field field_sep memcasecmp flags earlier)

  -- A line in front of runs: a run of its own, or the new first line of the first one.
  pub push_run : Bytes → List (Bytes × ℕ) → List (Bytes × ℕ)
  push_run line [] = (line, 0) ∷ []
  push_run line ((first, repeats) ∷ rest) =
      if differ first line then (line, 0) ∷ (first, repeats) ∷ rest else (line, suc repeats) ∷ rest

  -- The runs of adjacent lines that do not differ: first lines, and how often they are repeated.
  unfoldable pub runs : List Bytes → List (Bytes × ℕ)
  unfolding push_run
  runs [] = []
  runs (line ∷ lines) = push_run line (runs lines)

  abbrev pub write_runs : List (Bytes × ℕ) → List Item
  write_runs [] = []
  write_runs ((line, repeats) ∷ rest) =
      writeline field_sep memcasecmp flags line false repeats ++ write_runs rest

  pub relabel : Bytes → List (Bytes × ℕ) → List (Bytes × ℕ)
  relabel p [] = []
  relabel p ((line, repeats) ∷ rest) = (p, repeats) ∷ rest

  pub push_run-first :
      (line : Bytes) (r : List (Bytes × ℕ))
      → (repeats : ℕ) × (rest : List (Bytes × ℕ)) × (push_run line r ≡ (line, repeats) ∷ rest)
  unfolding push_run
  push_run-first line [] = (0, [], refl)
  push_run-first line ((first, repeats) ∷ rest) = elim (Bool-cases (differ first line)) [
    | inl e ↦ (0, (first, repeats) ∷ rest, rw e refl)
    | inr e ↦ (suc repeats, rest, rw e refl)
  ]

  differ-key_of :
      (later p line : Bytes) → key_of p ≡ key_of line → differ later p ≡ differ later line
  unfolding different
  differ-key_of later p line e =
      ap (λ k. different_chars field_sep memcasecmp flags (key_of later) k) e

  pub push_run-relabel :
      (p line : Bytes) (r : List (Bytes × ℕ))
      → key_of p ≡ key_of line
      → push_run p r ≡ relabel p (push_run line r)
  unfolding push_run relabel
  push_run-relabel p line [] e = refl
  push_run-relabel p line ((first, repeats) ∷ rest) e =
      rw (differ-key_of first p line e)
        (elim (Bool-cases (differ first line)) [ inl d ↦ rw d refl | inr d ↦ rw d refl ])

  both_false : (p q : Bool) → (not p || q) ≡ false → (p ≡ true) × (q ≡ false)
  both_false true q h = (refl, h)
  both_false false q h = cc h

  pub same_key :
      (later earlier : Bytes)
      → flags.ignore_case ≡ false
      → differ later earlier ≡ false
      → key_of later ≡ key_of earlier
  unfolding different different_chars
  same_key later earlier plain e =
      let a = key_of later in
      let b = key_of earlier in
      let (l, m) = both_false (length a == length b) _ e in
      memcmp_equal a b l (sym (if_false flags.ignore_case (memcasecmp a b) _ plain) ∙ m)

  not_delimiting : (d : DelimitMethod) → d ≡ DelimitMethod.dm_none → is_delimiting d ≡ false
  unfolding is_delimiting
  not_delimiting d e = rw e refl

  no_delimit :
      (d : DelimitMethod) (match : Bool) (n : ℕ) (first : Bool)
      → d ≡ DelimitMethod.dm_none
      → delimit field_sep memcasecmp flags d match n first ≡ []
  unfolding delimit
  no_delimit d match n first e = rw e refl

  module _ (plain : flags.ignore_case ≡ false) (once : flags.output_later_repeated ≡ false)
      (no_groups : flags.delimit_groups ≡ DelimitMethod.dm_none) where
    pub loop_same :
        (prev line : Bytes) (n : ℕ) (first : Bool) (lines : List Bytes)
        → differ line prev ≡ false
        → n + 1 < 2 ^ 64 - 1
        → count_loop field_sep memcasecmp flags prev n first (line ∷ lines)
          ≡ count_loop field_sep memcasecmp flags prev (n + 1) first lines
    unfolding count_loop
    loop_same prev line n first lines e small =
        let below : (n + 1 == 2 ^ 64 - 1) ≡ false = ground (arith, small) in
        rw (e, count_loop, below, not_delimiting flags.delimit_groups no_groups)
          (rw (no_delimit flags.delimit_groups true (n + 1) first no_groups)
            (if_false flags.output_later_repeated _ _ once))

    pub loop_differs :
        (prev line : Bytes) (n : ℕ) (first : Bool) (lines : List Bytes)
        → differ line prev ≡ true
        → count_loop field_sep memcasecmp flags prev n first (line ∷ lines)
          ≡ writeline field_sep memcasecmp flags prev false n
            ++ count_loop field_sep memcasecmp flags line 0 first lines
    unfolding count_loop
    loop_differs prev line n first lines e =
        rw (e, count_loop, not_delimiting flags.delimit_groups no_groups)
          (rw (no_delimit flags.delimit_groups false n first no_groups) refl)
