-- ===== src/Comm.antt =====
-- comm of annotated_Dataset-1/comm.c.
--
-- A file is the list of its lines without their delimiters, as gnulib's readlinebuffer_delim gives
-- them. A line buffer is none before a line was read into it. The two files are fields of the state;
-- what is indexed by the file in the program is a field of File.
use Prim.Native.Nat.{Ordering}
use lmcas.Base.{
  ℕ, zero, suc, ◌+◌, ◌%◌, ◌^◌, Bool, true, false, not, ◌&&◌, ◌||◌, List, [], ◌∷◌, ◌++◌, Option,
  none, some, Bytes, if◌then◌else◌, get_or, set,
}
use lmcas.Sort.Compare.{or_else, memcmp, length_diff}
pub mod Laws
mod Examples

pub data CheckOrder : Type 0 where
  check_order_default check_order_enabled check_order_disabled : CheckOrder

pub record Settings : Type 0 where
  pub only_file_1 : Bool
  pub only_file_2 : Bool
  pub both : Bool
  pub col_sep : Bytes
  pub delim : ℕ
  pub check_input_order : CheckOrder

-- Whether the locale's collation order is not that of the bytes, and gnulib's comparisons: xmemcoll
-- by the collation order, which ends the program when it fails and is taken not to fail; and
-- memcmp2.
pub record Locale : Type 0 where
  pub hard_lc_collate : Bool
  pub xmemcoll : Bytes → Bytes → Ordering
  pub memcmp2 : Bytes → Bytes → Ordering

pub record File : Type 0 where
  pub all_line : List (Option Bytes)
  pub alt_0 : ℕ
  pub alt_1 : ℕ
  pub alt_2 : ℕ
  pub thisline : Option Bytes
  pub unread : List Bytes
  pub issued_disorder_warning : Bool

pub record State : Type 0 where
  pub file_1 : File
  pub file_2 : File
  pub seen_unpairable : Bool
  pub total_1 : ℕ
  pub total_2 : ℕ
  pub total_3 : ℕ
  pub out : Bytes

-- The class of a line: found only in file 1, only in file 2, or in both.
pub data Class : Type 0 where
  only_1 only_2 in_both : Class

unfoldable pub writeline : Settings → Bytes → Class → Bytes
writeline settings line Class.only_1 =
    if settings.only_file_1 then line ++ settings.delim ∷ [] else []
writeline settings line Class.only_2 =
    if settings.only_file_2
    then (if settings.only_file_1 then settings.col_sep else []) ++ line ++ settings.delim ∷ []
    else []
writeline settings line Class.in_both =
    if settings.both
    then (if settings.only_file_1 then settings.col_sep else [])
      ++ (if settings.only_file_2 then settings.col_sep else [])
      ++ line
      ++ settings.delim ∷ []
    else []

abbrev pub is_gt : Ordering → Bool
is_gt Ordering.lt = false
is_gt Ordering.eq = false
is_gt Ordering.gt = true

-- `check_input_order != CHECK_ORDER_DISABLED && (... == CHECK_ORDER_ENABLED || seen_unpairable)`
abbrev pub is_checked : CheckOrder → Bool → Bool
is_checked CheckOrder.check_order_default seen_unpairable = seen_unpairable
is_checked CheckOrder.check_order_enabled seen_unpairable = true
is_checked CheckOrder.check_order_disabled seen_unpairable = false

abbrev pub is_fatal : CheckOrder → Bool
is_fatal CheckOrder.check_order_default = false
is_fatal CheckOrder.check_order_enabled = true
is_fatal CheckOrder.check_order_disabled = false

-- Reads the next line into the current buffer.
unfoldable pub read_from : List Bytes → File → File
read_from [] file = record file { thisline = none }
read_from (line ∷ unread) file = record file {
  all_line = set file.all_line file.alt_0 (some line);
  thisline = some line;
  unread = unread;
}

unfoldable pub read_line : File → File
unfolding read_from
read_line file = read_from file.unread file

unfoldable pub open_file : List Bytes → File
unfolding read_line
open_file lines = read_line (record {
  all_line = none ∷ none ∷ none ∷ none ∷ [];
  alt_0 = 0;
  alt_1 = 0;
  alt_2 = 0;
  thisline = none;
  unread = lines;
  issued_disorder_warning = false;
})

-- Rotates the buffers: `(alt + 1) & 0x03` is the remainder by 4.
unfoldable pub rotate : File → File
rotate file = record file { alt_0 = (file.alt_0 + 1) % 4; alt_1 = file.alt_0; alt_2 = file.alt_1 }

-- The order of two lines of one file.
abbrev pub order_of : Locale → Bytes → Bytes → Ordering
order_of locale prev current =
    if locale.hard_lc_collate then locale.xmemcoll prev current else locale.memcmp2 prev current

module _ (settings : Settings) (locale : Locale) where
  -- The warning is the message; when it is fatal the program ends after it (`step_file`).
  unfoldable pub check_order : Bool → Option Bytes → Option Bytes → File → File
  check_order seen_unpairable none current file = file
  check_order seen_unpairable (some prev) none file = file
  check_order seen_unpairable (some prev) (some current) file =
      if is_checked settings.check_input_order seen_unpairable
        && (not file.issued_disorder_warning && is_gt (order_of locale prev current))
      then record file { issued_disorder_warning = true }
      else file

  -- After a line or the end was read: with the end the two lines before are checked again.
  unfoldable pub check_filled : Bool → Option Bytes → File → File
  unfolding check_order
  check_filled seen_unpairable (some line) next =
      check_order seen_unpairable (get_or next.all_line next.alt_1 none) (some line) next
  check_filled seen_unpairable none next =
      check_order seen_unpairable (get_or next.all_line next.alt_2 none)
        (get_or next.all_line next.alt_1 none) next

  unfoldable pub fill_up : Bool → File → File
  unfolding check_filled read_line rotate
  fill_up seen_unpairable file =
      let next = read_line (rotate file) in check_filled seen_unpairable next.thisline next

-- The comparison of the next available lines. With their delimiters both are one byte longer.
unfoldable pub line_order : Locale → Bytes → Bytes → Ordering
unfolding memcmp length_diff
line_order locale a b =
    if locale.hard_lc_collate then locale.xmemcoll a b else or_else (memcmp a b) (length_diff a b)

unfoldable pub next_order : Locale → Option Bytes → Option Bytes → Ordering
unfolding line_order
next_order locale none line_2 = Ordering.gt
next_order locale (some a) none = Ordering.lt
next_order locale (some a) (some b) = line_order locale a b

abbrev pub text_of : Option Bytes → Bytes
text_of none = []
text_of (some line) = line

-- Outputs the line that is lesser and counts it.
unfoldable pub output : Settings → Ordering → State → State
unfolding writeline
output settings Ordering.eq st = record st {
  total_3 = (st.total_3 + 1) % 2 ^ 64;
  out = st.out ++ writeline settings (text_of st.file_2.thisline) Class.in_both;
}
output settings Ordering.lt st = record st {
  seen_unpairable = true;
  total_1 = (st.total_1 + 1) % 2 ^ 64;
  out = st.out ++ writeline settings (text_of st.file_1.thisline) Class.only_1;
}
output settings Ordering.gt st = record st {
  seen_unpairable = true;
  total_2 = (st.total_2 + 1) % 2 ^ 64;
  out = st.out ++ writeline settings (text_of st.file_2.thisline) Class.only_2;
}

-- Whether check_order has ended the program.
abbrev pub has_exited : Settings → File → Bool
has_exited settings file = is_fatal settings.check_input_order && file.issued_disorder_warning

unfoldable pub no_lines : Option Bytes → Option Bytes → Bool
no_lines none none = true
no_lines none (some line_2) = false
no_lines (some line_1) line_2 = false

-- Both files are opened and their first lines are read.
abbrev pub start_state : List Bytes → List Bytes → State
start_state lines_1 lines_2 = record {
  file_1 = open_file lines_1;
  file_2 = open_file lines_2;
  seen_unpairable = false;
  total_1 = 0;
  total_2 = 0;
  total_3 = 0;
  out = [];
}

-- How a run ends.
pub data Run : Type 0 where
  finished : State → Run
  failed : State → Run

module _ (settings : Settings) (locale : Locale) where
  -- Steps the file the line came from: file 1 first. With equal lines both are stepped.
  unfoldable pub step_1 : Ordering → State → State
  unfolding fill_up
  step_1 Ordering.gt st = st
  step_1 Ordering.eq st = record st {
    file_1 = fill_up settings locale st.seen_unpairable st.file_1;
  }
  step_1 Ordering.lt st = record st {
    file_1 = fill_up settings locale st.seen_unpairable st.file_1;
  }

  unfoldable pub step_2 : Ordering → State → State
  unfolding fill_up
  step_2 Ordering.lt st = st
  step_2 Ordering.eq st = record st {
    file_2 = fill_up settings locale st.seen_unpairable st.file_2;
  }
  step_2 Ordering.gt st = record st {
    file_2 = fill_up settings locale st.seen_unpairable st.file_2;
  }

  -- On fuel; none when it runs out.
  unfoldable pub compare_rounds : ℕ → State → Option Run
  unfolding no_lines next_order output step_1 step_2
  compare_rounds zero st = none
  compare_rounds (suc fuel) st = elim (no_lines st.file_1.thisline st.file_2.thisline) [
    | true ↦ some (Run.finished st)
    | false ↦
        let order = next_order locale st.file_1.thisline st.file_2.thisline in
        let st_1 = step_1 order (output settings order st) in
        let st_2 = step_2 order st_1 in
        let rest = compare_rounds fuel st_2 in
        if has_exited settings st_1.file_1
        then some (Run.failed st_1)
        else if has_exited settings st_2.file_2
        then some (Run.failed st_2)
        else rest
  ]

  unfoldable pub compare_files : ℕ → List Bytes → List Bytes → Option Run
  unfolding compare_rounds
  compare_files fuel lines_1 lines_2 = compare_rounds fuel (start_state lines_1 lines_2)
