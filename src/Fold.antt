-- ===== src/Fold.antt =====
-- fold of annotated_Dataset-1/fold.c.
--
-- The file is the list of its bytes. A size_t column is not wrapped: it is at most eight times the
-- number of bytes of a line. The test isblank of the locale is the argument `isblank`.
use lmcas.Base.{
  ℕ, zero, suc, ◌+◌, ◌-◌, ◌%◌, Bool, true, false, List, [], ◌∷◌, ◌++◌, Option, none, some, Bytes,
  newline, ltb, ◌==◌, if◌then◌else◌, length,
}
pub mod Laws
mod Examples

abbrev pub tab_width : ℕ
tab_width = 8

module _ (count_bytes : Bool) where
  unfoldable pub adjust_column : ℕ → ℕ → ℕ
  adjust_column column c =
      if count_bytes
      then column + 1
      else if c == 8
      then column - 1
      else if c == b'\r'
      then 0
      else if c == b'\t'
      then column + (tab_width - column % tab_width)
      else column + 1

  -- `for (column = i = 0; i < offset_out; i++) column = adjust_column (column, line_out[i]);`
  unfoldable pub columns_from : ℕ → Bytes → ℕ
  unfolding adjust_column
  columns_from column [] = column
  columns_from column (c ∷ line_out) = columns_from (adjust_column column c) line_out

-- The part of a line up to its last blank and the part after it; none when it has no blank.
unfoldable pub split_last_blank : (ℕ → Bool) → Bytes → Option (Bytes × Bytes)
split_last_blank isblank [] = none
split_last_blank isblank (c ∷ line) = elim (split_last_blank isblank line) [
  | some (front, back) ↦ some (c ∷ front, back)
  | none ↦ if isblank c then some (c ∷ [], line) else none
]

pub record Settings : Type 0 where
  pub count_bytes : Bool
  pub break_spaces : Bool
  pub width : ℕ

-- What is written, the characters that wait in line_out, and the column behind them.
pub record State : Type 0 where
  pub written : Bytes
  pub line_out : Bytes
  pub column : ℕ

module _ (settings : Settings) (isblank : ℕ → Bool) where
  -- Where the line is broken: behind its last blank, if the option is given and it has one.
  unfoldable pub break_point : Bytes → Option (Bytes × Bytes)
  unfolding split_last_blank
  break_point line_out = if settings.break_spaces then split_last_blank isblank line_out else none

  -- From the label rescan on, on fuel for the jumps to it; none when it runs out.
  unfoldable pub rescan : ℕ → State → ℕ → Option State
  unfolding adjust_column columns_from break_point
  rescan zero st c = none
  rescan (suc fuel) st c =
      let column = adjust_column settings.count_bytes st.column c in
      elim (ltb settings.width column) [
        | false ↦ some (record st { line_out = st.line_out ++ c ∷ []; column = column })
        | true ↦ elim (break_point st.line_out) [
          | some (front, back) ↦
              rescan fuel
                (record {
                  written = st.written ++ front ++ newline ∷ [];
                  line_out = back;
                  column = columns_from settings.count_bytes 0 back;
                })
                c
          | none ↦ elim st.line_out [
            | [] ↦ some (record st { line_out = c ∷ []; column = column })
            | first ∷ others ↦
                rescan fuel
                  (record {
                    written = st.written ++ (first ∷ others) ++ newline ∷ [];
                    line_out = [];
                    column = 0;
                  })
                  c
          ]
        ]
      ]

  -- One round of the loop over the characters.
  unfoldable pub fold_char : State → ℕ → Option State
  unfolding rescan
  fold_char st c =
      if c == newline
      then some (record {
        written = st.written ++ st.line_out ++ newline ∷ [];
        line_out = [];
        column = 0;
      })
      else rescan (suc (suc (length st.line_out))) st c

  unfoldable pub fold_chars : State → Bytes → Option State
  unfolding fold_char
  fold_chars st [] = some st
  fold_chars st (c ∷ istream) = elim (fold_char st c) [
    | none ↦ none
    | some st' ↦ fold_chars st' istream
  ]

  -- What fold_file writes for a file that can be read.
  unfoldable pub fold_file : Bytes → Option Bytes
  unfolding fold_chars
  fold_file istream =
      elim (fold_chars (record { written = []; line_out = []; column = 0 }) istream) [
        | none ↦ none
        | some st ↦ some (st.written ++ st.line_out)
      ]
