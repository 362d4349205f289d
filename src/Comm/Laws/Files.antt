-- ===== src/Comm/Laws/Files.antt =====
-- compare_files prints every line of both files once, in its column, and counts the columns.
use Prim.Native.Nat.{Ordering}
use lmcas.Base.{
  ℕ, zero, suc, ◌+◌, ◌<◌, false, List, [], ◌∷◌, some, none, Bytes, length, ◌≡◌, refl, sym, ap,
  append-nil, ◌∙◌, arith, inl, inr,
}
use lmcas.Sort.Compare.{or_else, memcmp, length_diff}
use lmcas.Sort.Compare.Laws.{dictionary_equal, memcmp-dictionary}
use lmcas.Comm.{
  Settings, Locale, State, Class, is_fatal, line_order, next_order, no_lines, Run, open_file,
  read_line, start_state, compare_files,
}
use lmcas.Comm.Laws.{classify, of_file_1, of_file_2, lines_left, read_from-lines_left, last_round}
use lmcas.Comm.Laws.Columns.{
  Printed, Counts, Ordering-cases, Prints, no_lines_at, first_of, round_lt, round_eq, round_gt,
}

module _ (locale : Locale) (a b : Bytes) (xs ys : List Bytes) where
  classify_lt :
      line_order locale a b ≡ Ordering.lt
      → classify locale (a ∷ xs) (b ∷ ys) ≡ (Class.only_1, a) ∷ classify locale xs (b ∷ ys)
  unfolding classify
  classify_lt e = rw (e, classify) refl

  classify_eq :
      line_order locale a b ≡ Ordering.eq
      → classify locale (a ∷ xs) (b ∷ ys) ≡ (Class.in_both, b) ∷ classify locale xs ys
  unfolding classify
  classify_eq e = rw (e, classify) refl

  classify_gt :
      line_order locale a b ≡ Ordering.gt
      → classify locale (a ∷ xs) (b ∷ ys) ≡ (Class.only_2, b) ∷ classify locale (a ∷ xs) ys
  unfolding classify
  classify_gt e = rw (e, classify) refl

classify_end_1 :
    (locale : Locale) (b : Bytes) (ys : List Bytes)
    → classify locale [] (b ∷ ys) ≡ (Class.only_2, b) ∷ classify locale [] ys
unfolding classify
classify_end_1 locale b ys = refl

classify_end_2 :
    (locale : Locale) (a : Bytes) (xs : List Bytes)
    → classify locale (a ∷ xs) [] ≡ (Class.only_1, a) ∷ classify locale xs []
unfolding classify
classify_end_2 locale a xs = refl

bytewise :
    (locale : Locale) (a b : Bytes)
    → locale.hard_lc_collate ≡ false
    → line_order locale a b ≡ or_else (memcmp a b) (length_diff a b)
unfolding line_order
bytewise locale a b c_locale = rw c_locale refl

-- In the C locale lines that compare equal are equal.
line_order_equal :
    (locale : Locale) (a b : Bytes)
    → locale.hard_lc_collate ≡ false
    → line_order locale a b ≡ Ordering.eq
    → a ≡ b
line_order_equal locale a b c_locale e =
    dictionary_equal a b (sym (memcmp-dictionary a b) ∙ sym (bytewise locale a b c_locale) ∙ e)

classify-of_file_1 :
    (locale : Locale) (xs ys : List Bytes)
    → locale.hard_lc_collate ≡ false
    → of_file_1 (classify locale xs ys) ≡ xs
classify-of_file_1 locale [] [] c_locale = unfold classify in refl
classify-of_file_1 locale [] (b ∷ ys) c_locale =
    rw (classify_end_1 locale b ys) (classify-of_file_1 locale [] ys c_locale)
classify-of_file_1 locale (a ∷ xs) [] c_locale =
    rw (classify_end_2 locale a xs)
      (ap (λ (l : List Bytes). a ∷ l) (classify-of_file_1 locale xs [] c_locale))
classify-of_file_1 locale (a ∷ xs) (b ∷ ys) c_locale =
    elim (Ordering-cases (line_order locale a b)) [
      | inl e ↦
          rw (classify_lt locale a b xs ys e)
            (ap (λ (l : List Bytes). a ∷ l) (classify-of_file_1 locale xs (b ∷ ys) c_locale))
      | inr (inl e) ↦
          rw (classify_eq locale a b xs ys e, line_order_equal locale a b c_locale e)
            (ap (λ (l : List Bytes). b ∷ l) (classify-of_file_1 locale xs ys c_locale))
      | inr (inr e) ↦
          rw (classify_gt locale a b xs ys e) (classify-of_file_1 locale (a ∷ xs) ys c_locale)
    ]

classify-of_file_2 : (locale : Locale) (xs ys : List Bytes) → of_file_2 (classify locale xs ys) ≡ ys
classify-of_file_2 locale [] [] = unfold classify in refl
classify-of_file_2 locale [] (b ∷ ys) =
    rw (classify_end_1 locale b ys)
      (ap (λ (l : List Bytes). b ∷ l) (classify-of_file_2 locale [] ys))
classify-of_file_2 locale (a ∷ xs) [] =
    rw (classify_end_2 locale a xs) (classify-of_file_2 locale xs [])
classify-of_file_2 locale (a ∷ xs) (b ∷ ys) = elim (Ordering-cases (line_order locale a b)) [
  | inl e ↦ rw (classify_lt locale a b xs ys e) (classify-of_file_2 locale xs (b ∷ ys))
  | inr (inl e) ↦
      rw (classify_eq locale a b xs ys e)
        (ap (λ (l : List Bytes). b ∷ l) (classify-of_file_2 locale xs ys))
  | inr (inr e) ↦
      rw (classify_gt locale a b xs ys e)
        (ap (λ (l : List Bytes). b ∷ l) (classify-of_file_2 locale (a ∷ xs) ys))
]

module _ (settings : Settings) (locale : Locale)
    (fine : is_fatal settings.check_input_order ≡ false) where
  Printed-none :
      (st : State) (n_1 n_2 n_3 : ℕ)
      → Counts st n_1 n_2 n_3
      → Printed settings st.out n_1 n_2 n_3 (classify locale [] []) st
  unfolding classify
  Printed-none st n_1 n_2 n_3 counts = record {
    printed = sym (append-nil st.out);
    counted_1 = omega (arith, counts.count_1);
    counted_2 = omega (arith, counts.count_2);
    counted_3 = omega (arith, counts.count_3);
  }

  rounds_lem :
      (fuel : ℕ) (xs ys : List Bytes) (st : State) (n_1 n_2 n_3 : ℕ)
      → length xs + length ys < fuel
      → lines_left st.file_1 ≡ xs
      → lines_left st.file_2 ≡ ys
      → Counts st n_1 n_2 n_3
      → Prints settings locale fuel st st.out n_1 n_2 n_3 (classify locale xs ys)
  rounds_lem zero xs ys st n_1 n_2 n_3 enough l_1 l_2 counts = absurd (omega arith)
  rounds_lem (suc fuel) [] [] st n_1 n_2 n_3 enough l_1 l_2 counts = (
    st,
    last_round settings locale fuel st (
        no_lines_at st.file_1.thisline st.file_2.thisline [] []
          (first_of settings locale st.file_1 [] l_1) (first_of settings locale st.file_2 [] l_2)
        ∙ (unfold no_lines in refl)),
    Printed-none st n_1 n_2 n_3 counts,
  )
  rounds_lem (suc fuel) [] (b ∷ ys) st n_1 n_2 n_3 enough l_1 l_2 counts =
      rw (classify_end_1 locale b ys) (
        round_gt settings locale fine fuel st b [] ys n_1 n_2 n_3 (classify locale [] ys) l_1 l_2
          (unfold next_order in refl) counts
          (λ next m_1 m_2 c.
            rounds_lem fuel [] ys next n_1 (n_2 + 1) n_3 (omega (arith, enough)) m_1 m_2 c))
  rounds_lem (suc fuel) (a ∷ xs) [] st n_1 n_2 n_3 enough l_1 l_2 counts =
      rw (classify_end_2 locale a xs) (
        round_lt settings locale fine fuel st a xs [] n_1 n_2 n_3 (classify locale xs []) l_1 l_2
          (unfold next_order in refl) counts
          (λ next m_1 m_2 c.
            rounds_lem fuel xs [] next (n_1 + 1) n_2 n_3 (omega (arith, enough)) m_1 m_2 c))
  rounds_lem (suc fuel) (a ∷ xs) (b ∷ ys) st n_1 n_2 n_3 enough l_1 l_2 counts =
      elim (Ordering-cases (line_order locale a b)) [
        | inl e ↦ rw (classify_lt locale a b xs ys e) (
            round_lt settings locale fine fuel st a xs (b ∷ ys) n_1 n_2 n_3
              (classify locale xs (b ∷ ys)) l_1 l_2 (unfold next_order in e) counts
              (λ next m_1 m_2 c.
                rounds_lem fuel xs (b ∷ ys) next (n_1 + 1) n_2 n_3 (omega (arith, enough)) m_1 m_2
                  c))
        | inr (inl e) ↦ rw (classify_eq locale a b xs ys e) (
            round_eq settings locale fine fuel st a b xs ys n_1 n_2 n_3 (classify locale xs ys) l_1
              l_2 (unfold next_order in e) counts
              (λ next m_1 m_2 c.
                rounds_lem fuel xs ys next n_1 n_2 (n_3 + 1) (omega (arith, enough)) m_1 m_2 c))
        | inr (inr e) ↦ rw (classify_gt locale a b xs ys e) (
            round_gt settings locale fine fuel st b (a ∷ xs) ys n_1 n_2 n_3
              (classify locale (a ∷ xs) ys) l_1 l_2 (unfold next_order in e) counts
              (λ next m_1 m_2 c.
                rounds_lem fuel (a ∷ xs) ys next n_1 (n_2 + 1) n_3 (omega (arith, enough)) m_1 m_2
                  c))
      ]

opened : (lines : List Bytes) → lines_left (open_file lines) ≡ lines
unfolding open_file read_line
opened lines = read_from-lines_left lines (record {
  all_line = none ∷ none ∷ none ∷ none ∷ [];
  alt_0 = 0;
  alt_1 = 0;
  alt_2 = 0;
  thisline = none;
  unread = lines;
  issued_disorder_warning = false;
})

-- In a locale that compares lines by their bytes, and unless --check-order was given, compare_files
-- ends when it gets one round for each line of both files and one more. It prints lines with their
-- classes so that those of file 1 and of both files are file 1, and those of file 2 and of both
-- files are file 2, in order; these are the files merged by the comparison of lines; and the totals
-- count the classes, modulo 2 ^ 64.
pub compare_files-classify :
    (settings : Settings) (locale : Locale) (lines_1 lines_2 : List Bytes)
    → is_fatal settings.check_input_order ≡ false
    → locale.hard_lc_collate ≡ false
    → (st : State) × (compare_files settings locale
          (suc (length lines_1 + length lines_2))
          lines_1
          lines_2
        ≡ some (Run.finished st))
      × Printed settings [] 0 0 0 (classify locale lines_1 lines_2) st
      × (of_file_1 (classify locale lines_1 lines_2) ≡ lines_1)
      × (of_file_2 (classify locale lines_1 lines_2) ≡ lines_2)
unfolding compare_files
compare_files-classify settings locale lines_1 lines_2 fine c_locale =
    let (st, ends, printed) =
      rounds_lem settings locale fine (suc (length lines_1 + length lines_2)) lines_1 lines_2
        (start_state lines_1 lines_2) 0 0 0 (omega arith) (opened lines_1) (opened lines_2)
        (record { count_1 = refl; count_2 = refl; count_3 = refl }) in
    (
      st,
      ends,
      printed,
      classify-of_file_1 locale lines_1 lines_2 c_locale,
      classify-of_file_2 locale lines_1 lines_2,
    )
