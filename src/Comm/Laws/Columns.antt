-- ===== src/Comm/Laws/Columns.antt =====
-- Round by round, compare_rounds prints the merge of the lines that are left.
use Prim.Native.Nat.{Ordering}
use lmcas.Base.{
  ℕ, suc, ◌+◌, ◌%◌, ◌^◌, Bool, true, false, List, [], ◌∷◌, ◌++◌, Option, some, Bytes, append_assoc,
  ◌≡◌, refl, ap, subst, ◌∙◌, ◌⊎◌, arith, inl, inr,
}
use lmcas.Comm.{
  Settings, Locale, File, State, Class, writeline, is_fatal, fill_up, next_order, text_of, output,
  no_lines, Run, step_1, step_2, compare_rounds,
}
use lmcas.Comm.Laws.{
  render, count_class, first_line, lines_left, thisline-first_line, unread-rest, fill_up-lines_left,
  after, one_round,
}

-- What a run has printed since `out` and the totals `n_1`, `n_2` and `n_3`.
pub record Printed (settings : Settings) (out : Bytes) (n_1 n_2 n_3 : ℕ)
    (entries : List (Class × Bytes)) (st : State) : Type 0 where
  pub printed : st.out ≡ out ++ render settings entries
  pub counted_1 : st.total_1 ≡ (n_1 + count_class Class.only_1 entries) % 2 ^ 64
  pub counted_2 : st.total_2 ≡ (n_2 + count_class Class.only_2 entries) % 2 ^ 64
  pub counted_3 : st.total_3 ≡ (n_3 + count_class Class.in_both entries) % 2 ^ 64

-- The totals so far.
pub record Counts (st : State) (n_1 n_2 n_3 : ℕ) : Type 0 where
  pub count_1 : st.total_1 ≡ n_1 % 2 ^ 64
  pub count_2 : st.total_2 ≡ n_2 % 2 ^ 64
  pub count_3 : st.total_3 ≡ n_3 % 2 ^ 64

pub Ordering-cases : (o : Ordering) → (o ≡ Ordering.lt) ⊎ ((o ≡ Ordering.eq) ⊎ (o ≡ Ordering.gt))
Ordering-cases Ordering.lt = inl refl
Ordering-cases Ordering.eq = inr (inl refl)
Ordering-cases Ordering.gt = inr (inr refl)

pub no_lines_at :
    (o p : Option Bytes) (xs ys : List Bytes)
    → o ≡ first_line xs
    → p ≡ first_line ys
    → no_lines o p ≡ no_lines (first_line xs) (first_line ys)
no_lines_at o p xs ys e f = rw (e, f) refl

next_order_at :
    (locale : Locale) (o p : Option Bytes) (xs ys : List Bytes)
    → o ≡ first_line xs
    → p ≡ first_line ys
    → next_order locale o p ≡ next_order locale (first_line xs) (first_line ys)
next_order_at locale o p xs ys e f = rw (e, f) refl

some_lines : (xs : List Bytes) (b : Bytes) → no_lines (first_line xs) (some b) ≡ false
unfolding no_lines
some_lines [] b = refl
some_lines (x ∷ xs) b = refl

one_more : (n : ℕ) → (n % 2 ^ 64 + 1) % 2 ^ 64 ≡ (n + 1) % 2 ^ 64
one_more n = omega arith

module _ (settings : Settings) (locale : Locale) where
  pub first_of :
      (file : File) (lines : List Bytes)
      → lines_left file ≡ lines
      → file.thisline ≡ first_line lines
  first_of file lines e = thisline-first_line file.thisline file.unread lines e

  rest_of :
      (seen : Bool) (file : File) (line : Bytes) (lines : List Bytes)
      → lines_left file ≡ line ∷ lines
      → lines_left (fill_up settings locale seen file) ≡ lines
  rest_of seen file line lines e =
      fill_up-lines_left settings locale seen file
      ∙ unread-rest file.thisline file.unread line lines e

  -- A run from `st` that prints `entries`.
  abbrev pub Prints : ℕ → State → Bytes → ℕ → ℕ → ℕ → List (Class × Bytes) → Type 0
  Prints fuel st out n_1 n_2 n_3 entries =
      (st' : State) × (compare_rounds settings locale fuel st ≡ some (Run.finished st'))
      × Printed settings out n_1 n_2 n_3 entries st'

  prints_first :
      (out line : Bytes) (class : Class) (entries : List (Class × Bytes)) (st : State)
      → st.out ≡ (out ++ writeline settings line class) ++ render settings entries
      → st.out ≡ out ++ render settings ((class, line) ∷ entries)
  prints_first out line class entries st e =
      e ∙ append_assoc out (writeline settings line class) (render settings entries)

  Printed-only_1 :
      (out line : Bytes) (n_1 n_2 n_3 : ℕ) (entries : List (Class × Bytes)) (st : State)
      → Printed settings (out ++ writeline settings line Class.only_1) (n_1 + 1) n_2 n_3 entries st
      → Printed settings out n_1 n_2 n_3 ((Class.only_1, line) ∷ entries) st
  Printed-only_1 out line n_1 n_2 n_3 entries st h = record {
    printed = prints_first out line Class.only_1 entries st h.printed;
    counted_1 = omega (arith, h.counted_1);
    counted_2 = h.counted_2;
    counted_3 = h.counted_3;
  }

  Printed-only_2 :
      (out line : Bytes) (n_1 n_2 n_3 : ℕ) (entries : List (Class × Bytes)) (st : State)
      → Printed settings (out ++ writeline settings line Class.only_2) n_1 (n_2 + 1) n_3 entries st
      → Printed settings out n_1 n_2 n_3 ((Class.only_2, line) ∷ entries) st
  Printed-only_2 out line n_1 n_2 n_3 entries st h = record {
    printed = prints_first out line Class.only_2 entries st h.printed;
    counted_1 = h.counted_1;
    counted_2 = omega (arith, h.counted_2);
    counted_3 = h.counted_3;
  }

  Printed-in_both :
      (out line : Bytes) (n_1 n_2 n_3 : ℕ) (entries : List (Class × Bytes)) (st : State)
      → Printed settings (out ++ writeline settings line Class.in_both) n_1 n_2 (n_3 + 1) entries st
      → Printed settings out n_1 n_2 n_3 ((Class.in_both, line) ∷ entries) st
  Printed-in_both out line n_1 n_2 n_3 entries st h = record {
    printed = prints_first out line Class.in_both entries st h.printed;
    counted_1 = h.counted_1;
    counted_2 = h.counted_2;
    counted_3 = omega (arith, h.counted_3);
  }

  module _ (fine : is_fatal settings.check_input_order ≡ false) where
    pub round_lt :
        (fuel : ℕ) (st : State) (a : Bytes) (xs ys : List Bytes) (n_1 n_2 n_3 : ℕ)
        (entries : List (Class × Bytes))
        → lines_left st.file_1 ≡ a ∷ xs
        → lines_left st.file_2 ≡ ys
        → next_order locale (some a) (first_line ys) ≡ Ordering.lt
        → Counts st n_1 n_2 n_3
        → ((next : State)
            → lines_left next.file_1 ≡ xs
            → lines_left next.file_2 ≡ ys
            → Counts next (n_1 + 1) n_2 n_3
            → Prints fuel next next.out (n_1 + 1) n_2 n_3 entries)
        → Prints (suc fuel) st st.out n_1 n_2 n_3 ((Class.only_1, a) ∷ entries)
    unfolding step_1 step_2 output no_lines
    round_lt fuel st a xs ys n_1 n_2 n_3 entries l_1 l_2 order counts continue =
        let first = first_of st.file_1 (a ∷ xs) l_1 in
        let other = first_of st.file_2 ys l_2 in
        let next = after settings locale Ordering.lt st in
        let wrote : next.out ≡ st.out ++ writeline settings a Class.only_1 =
          ap (λ o. st.out ++ writeline settings (text_of o) Class.only_1) first in
        let (st', ends, printed) = continue next (rest_of true st.file_1 a xs l_1) l_2 (record {
          count_1 = ap (λ n. (n + 1) % 2 ^ 64) counts.count_1 ∙ one_more n_1;
          count_2 = counts.count_2;
          count_3 = counts.count_3;
        }) in
        (
          st',
          one_round settings locale fuel st Ordering.lt fine
                (no_lines_at st.file_1.thisline st.file_2.thisline (a ∷ xs) ys first other)
                (next_order_at locale st.file_1.thisline st.file_2.thisline (a ∷ xs) ys first other
                  ∙ order)
              ∙ ends,
          Printed-only_1 st.out a n_1 n_2 n_3 entries st'
              (subst (λ o. Printed settings o (n_1 + 1) n_2 n_3 entries st') wrote printed),
        )

    pub round_gt :
        (fuel : ℕ) (st : State) (b : Bytes) (xs ys : List Bytes) (n_1 n_2 n_3 : ℕ)
        (entries : List (Class × Bytes))
        → lines_left st.file_1 ≡ xs
        → lines_left st.file_2 ≡ b ∷ ys
        → next_order locale (first_line xs) (some b) ≡ Ordering.gt
        → Counts st n_1 n_2 n_3
        → ((next : State)
            → lines_left next.file_1 ≡ xs
            → lines_left next.file_2 ≡ ys
            → Counts next n_1 (n_2 + 1) n_3
            → Prints fuel next next.out n_1 (n_2 + 1) n_3 entries)
        → Prints (suc fuel) st st.out n_1 n_2 n_3 ((Class.only_2, b) ∷ entries)
    unfolding step_1 step_2 output
    round_gt fuel st b xs ys n_1 n_2 n_3 entries l_1 l_2 order counts continue =
        let first = first_of st.file_1 xs l_1 in
        let other = first_of st.file_2 (b ∷ ys) l_2 in
        let next = after settings locale Ordering.gt st in
        let wrote : next.out ≡ st.out ++ writeline settings b Class.only_2 =
          ap (λ o. st.out ++ writeline settings (text_of o) Class.only_2) other in
        let (st', ends, printed) = continue next l_1 (rest_of true st.file_2 b ys l_2) (record {
          count_1 = counts.count_1;
          count_2 = ap (λ n. (n + 1) % 2 ^ 64) counts.count_2 ∙ one_more n_2;
          count_3 = counts.count_3;
        }) in
        (
          st',
          one_round settings locale fuel st Ordering.gt fine
                (no_lines_at st.file_1.thisline st.file_2.thisline xs (b ∷ ys) first other
                  ∙ some_lines xs b)
                (next_order_at locale st.file_1.thisline st.file_2.thisline xs (b ∷ ys) first other
                  ∙ order)
              ∙ ends,
          Printed-only_2 st.out b n_1 n_2 n_3 entries st'
              (subst (λ o. Printed settings o n_1 (n_2 + 1) n_3 entries st') wrote printed),
        )

    pub round_eq :
        (fuel : ℕ) (st : State) (a b : Bytes) (xs ys : List Bytes) (n_1 n_2 n_3 : ℕ)
        (entries : List (Class × Bytes))
        → lines_left st.file_1 ≡ a ∷ xs
        → lines_left st.file_2 ≡ b ∷ ys
        → next_order locale (some a) (some b) ≡ Ordering.eq
        → Counts st n_1 n_2 n_3
        → ((next : State)
            → lines_left next.file_1 ≡ xs
            → lines_left next.file_2 ≡ ys
            → Counts next n_1 n_2 (n_3 + 1)
            → Prints fuel next next.out n_1 n_2 (n_3 + 1) entries)
        → Prints (suc fuel) st st.out n_1 n_2 n_3 ((Class.in_both, b) ∷ entries)
    unfolding step_1 step_2 output no_lines
    round_eq fuel st a b xs ys n_1 n_2 n_3 entries l_1 l_2 order counts continue =
        let first = first_of st.file_1 (a ∷ xs) l_1 in
        let other = first_of st.file_2 (b ∷ ys) l_2 in
        let next = after settings locale Ordering.eq st in
        let wrote : next.out ≡ st.out ++ writeline settings b Class.in_both =
          ap (λ o. st.out ++ writeline settings (text_of o) Class.in_both) other in
        let (st', ends, printed) =
          continue next (rest_of st.seen_unpairable st.file_1 a xs l_1)
            (rest_of st.seen_unpairable st.file_2 b ys l_2)
            (record {
              count_1 = counts.count_1;
              count_2 = counts.count_2;
              count_3 = ap (λ n. (n + 1) % 2 ^ 64) counts.count_3 ∙ one_more n_3;
            }) in
        (
          st',
          one_round settings locale fuel st Ordering.eq fine
                (no_lines_at st.file_1.thisline st.file_2.thisline (a ∷ xs) (b ∷ ys) first other)
                (next_order_at locale st.file_1.thisline st.file_2.thisline (a ∷ xs) (b ∷ ys) first
                    other
                  ∙ order)
              ∙ ends,
          Printed-in_both st.out b n_1 n_2 n_3 entries st'
              (subst (λ o. Printed settings o n_1 n_2 (n_3 + 1) entries st') wrote printed),
        )
