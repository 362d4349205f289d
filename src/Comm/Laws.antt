-- ===== src/Comm/Laws.antt =====
-- compare_files merges both files: every line of both comes out once, in its column.
pub mod Columns
pub mod Files
use Prim.Native.Nat.{Ordering}
use lmcas.Base.{
  ℕ, zero, suc, ◌+◌, ◌%◌, ◌^◌, ◌≤◌, ◌<◌, Bool, true, false, not, ◌&&◌, ◌||◌, List, [], ◌∷◌, ◌++◌,
  Option, none, some, Bytes, if◌then◌else◌, get_or, set, drop, length, append_assoc, append-nil,
  ◌≡◌, ◌≢◌, refl, sym, ap, ◌∙◌, arith, Bool-cases, inl, inr,
}
use lmcas.Sort.Compare.{or_else}
use lmcas.Comm.{
  CheckOrder, Settings, Locale, File, State, Class, writeline, is_gt, is_checked, is_fatal,
  read_from, read_line, open_file, rotate, order_of, check_order, check_filled, fill_up, line_order,
  next_order, text_of, output, has_exited, no_lines, Run, step_1, step_2, compare_rounds,
  compare_files,
}

-- The lines that comm prints, with their classes: the two files merged by line_order.
unfoldable pub classify : Locale → List Bytes → List Bytes → List (Class × Bytes)
classify locale [] [] = []
classify locale [] (b ∷ lines_2) = (Class.only_2, b) ∷ classify locale [] lines_2
classify locale (a ∷ lines_1) [] = (Class.only_1, a) ∷ classify locale lines_1 []
classify locale (a ∷ lines_1) (b ∷ lines_2) = elim (line_order locale a b) [
  | Ordering.lt ↦ (Class.only_1, a) ∷ classify locale lines_1 (b ∷ lines_2)
  | Ordering.eq ↦ (Class.in_both, b) ∷ classify locale lines_1 lines_2
  | Ordering.gt ↦ (Class.only_2, b) ∷ classify locale (a ∷ lines_1) lines_2
]

abbrev pub render : Settings → List (Class × Bytes) → Bytes
render settings [] = []
render settings ((class, line) ∷ rest) = writeline settings line class ++ render settings rest

-- The lines of file 1, of file 2, and how many have a class.
abbrev pub of_file_1 : List (Class × Bytes) → List Bytes
of_file_1 [] = []
of_file_1 ((Class.only_1, line) ∷ rest) = line ∷ of_file_1 rest
of_file_1 ((Class.only_2, line) ∷ rest) = of_file_1 rest
of_file_1 ((Class.in_both, line) ∷ rest) = line ∷ of_file_1 rest

abbrev pub of_file_2 : List (Class × Bytes) → List Bytes
of_file_2 [] = []
of_file_2 ((Class.only_1, line) ∷ rest) = of_file_2 rest
of_file_2 ((Class.only_2, line) ∷ rest) = line ∷ of_file_2 rest
of_file_2 ((Class.in_both, line) ∷ rest) = line ∷ of_file_2 rest

abbrev pub is_class : Class → Class → Bool
is_class Class.only_1 Class.only_1 = true
is_class Class.only_2 Class.only_2 = true
is_class Class.in_both Class.in_both = true
is_class c d = false

abbrev pub count_class : Class → List (Class × Bytes) → ℕ
count_class c [] = 0
count_class c ((d, line) ∷ rest) =
    if is_class c d then suc (count_class c rest) else count_class c rest

abbrev pub first_line : List Bytes → Option Bytes
first_line [] = none
first_line (line ∷ lines) = some line

-- The lines of a file that are not printed yet.
abbrev pub left_from : Option Bytes → List Bytes → List Bytes
left_from none unread = []
left_from (some line) unread = line ∷ unread

abbrev pub lines_left : File → List Bytes
lines_left file = left_from file.thisline file.unread

pub read_from-lines_left :
    (unread : List Bytes) (file : File) → lines_left (read_from unread file) ≡ unread
unfolding read_from
read_from-lines_left [] file = refl
read_from-lines_left (line ∷ unread) file = refl

pub thisline-first_line :
    (thisline : Option Bytes) (unread lines : List Bytes)
    → left_from thisline unread ≡ lines
    → thisline ≡ first_line lines
thisline-first_line none unread lines e = ap first_line e
thisline-first_line (some line) unread lines e = ap first_line e

pub unread-rest :
    (thisline : Option Bytes) (unread : List Bytes) (line : Bytes) (lines : List Bytes)
    → left_from thisline unread ≡ line ∷ lines
    → unread ≡ lines
unread-rest none unread line lines e = cc e
unread-rest (some first) unread line lines e = ap (drop 1) e

module _ (settings : Settings) (locale : Locale) where
  check_order-lines_left :
      (seen : Bool) (prev current : Option Bytes) (file : File)
      → lines_left (check_order settings locale seen prev current file) ≡ lines_left file
  unfolding check_order
  check_order-lines_left seen none current file = refl
  check_order-lines_left seen (some prev) none file = refl
  check_order-lines_left seen (some prev) (some current) file =
      elim (Bool-cases (
        is_checked settings.check_input_order seen
        && (not file.issued_disorder_warning && is_gt (order_of locale prev current)))) [
          | inl e ↦ rw e refl
          | inr e ↦ rw e refl
        ]

  check_filled-lines_left :
      (seen : Bool) (line : Option Bytes) (next : File)
      → lines_left (check_filled settings locale seen line next) ≡ lines_left next
  unfolding check_filled
  check_filled-lines_left seen none next =
      check_order-lines_left seen (get_or next.all_line next.alt_2 none)
        (get_or next.all_line next.alt_1 none) next
  check_filled-lines_left seen (some line) next =
      check_order-lines_left seen (get_or next.all_line next.alt_1 none) (some line) next

  pub fill_up-lines_left :
      (seen : Bool) (file : File) → lines_left (fill_up settings locale seen file) ≡ file.unread
  unfolding fill_up read_line rotate
  fill_up-lines_left seen file =
      let next = read_line (rotate file) in
      check_filled-lines_left seen next.thisline next
      ∙ read_from-lines_left file.unread (rotate file)

module _ (settings : Settings) (locale : Locale) where
  abbrev pub after : Ordering → State → State
  after order st =
      step_2 settings locale order (step_1 settings locale order (output settings order st))

  no_exit :
      (file : File) → is_fatal settings.check_input_order ≡ false → has_exited settings file ≡ false
  no_exit file h = rw h refl

  pub one_round :
      (fuel : ℕ) (st : State) (order : Ordering)
      → is_fatal settings.check_input_order ≡ false
      → no_lines st.file_1.thisline st.file_2.thisline ≡ false
      → next_order locale st.file_1.thisline st.file_2.thisline ≡ order
      → compare_rounds settings locale (suc fuel) st
        ≡ compare_rounds settings locale fuel (after order st)
  unfolding compare_rounds
  one_round fuel st order h n e = rw (n, compare_rounds, e, h) refl

  pub last_round :
      (fuel : ℕ) (st : State)
      → no_lines st.file_1.thisline st.file_2.thisline ≡ true
      → compare_rounds settings locale (suc fuel) st ≡ some (Run.finished st)
  unfolding compare_rounds
  last_round fuel st n = rw (n, compare_rounds) refl
