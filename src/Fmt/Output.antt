-- ===== src/Fmt/Output.antt =====
-- put_space, put_word, put_line and put_paragraph: how fmt writes a paragraph.
--
-- What is written is a list of bytes, with the column behind it. A put_space of a negative number
-- writes nothing, as the difference of naturals does. The loop over the tabs has one round for each
-- column as its fuel. The pointers are numbers of words up to word_limit, as in Fmt; the loops over
-- them run on the words from the first one on.
use lmcas.Base.{
  ℕ, zero, suc, ◌+◌, ◌-◌, ◌*◌, ◌/◌, Bool, true, false, not, ◌&&◌, List, [], ◌∷◌, ◌++◌, Option, none,
  some, Bytes, ltb, ◌==◌, if◌then◌else◌, length, drop, newline,
}
use lmcas.Fmt.{Word, Globals}
pub mod Spaces
pub mod Lines
pub mod Printed
pub mod Indents

abbrev pub tabwidth : ℕ
tabwidth = 8

abbrev pub next_stop : ℕ → ℕ
next_stop column = (column / tabwidth + 1) * tabwidth

unfoldable pub put_tabs : ℕ → ℕ → ℕ → Bytes × ℕ
put_tabs zero out_column tab_target = ([], out_column)
put_tabs (suc fuel) out_column tab_target =
    let further = put_tabs fuel (next_stop out_column) tab_target in
    if ltb out_column tab_target then (b'\t' ∷ further.0, further.1) else ([], out_column)

unfoldable pub put_blanks : ℕ → Bytes
put_blanks zero = []
put_blanks (suc n) = b' ' ∷ put_blanks n

unfoldable pub put_space : Bool → ℕ → ℕ → Bytes × ℕ
unfolding put_tabs put_blanks
put_space tabs out_column space =
    let space_target = out_column + space in
    let tab_target = space_target / tabwidth * tabwidth in
    let tabbed =
      if tabs && ltb (out_column + 1) tab_target
      then put_tabs (tab_target - out_column) out_column tab_target
      else ([], out_column) in
    (tabbed.0 ++ put_blanks (space_target - tabbed.1), tabbed.1 + (space_target - tabbed.1))

-- What put_line needs besides: whether tabs are written, and the prefix of each line.
pub record Layout : Type 0 where
  pub tabs : Bool
  pub prefix_indent : ℕ
  pub prefix : Bytes
  pub prefix_length : ℕ

module _ (layout : Layout) where
  -- The words of a line, up to the one in front of `endline + 1`.
  unfoldable pub put_words : ℕ → ℕ → List Word → Bytes × ℕ
  put_words finish out_column [] = ([], out_column)
  put_words finish out_column (w ∷ others) =
      let column = out_column + w.length_of in
      let blanks = put_space layout.tabs column w.space in
      let further = put_words finish blanks.1 others in
      if length others == finish
      then (w.text, column)
      else (w.text ++ blanks.0 ++ further.0, further.1)

  -- The line that begins with the first of the words, and its length, for last_line_length.
  unfoldable pub put_line : List Word → ℕ → Bytes × ℕ
  put_line [] indent = ([], 0)
  put_line (w ∷ others) indent =
      let lead = put_space layout.tabs 0 layout.prefix_indent in
      let column = lead.1 + layout.prefix_length in
      let blanks = put_space layout.tabs column (indent - column) in
      let line = put_words w.next_break blanks.1 (w ∷ others) in
      (lead.0 ++ layout.prefix ++ blanks.0 ++ line.0 ++ newline ∷ [], line.1)

  -- The words from the one that a pointer points to.
  abbrev pub words_from : ℕ → List Word → List Word
  words_from pointer words = drop (length words - pointer) words

  abbrev pub break_of : List Word → ℕ
  break_of [] = 0
  break_of (w ∷ others) = w.next_break

  -- The loop of put_paragraph over the lines behind the first, on fuel.
  unfoldable pub put_lines : ℕ → ℕ → ℕ → ℕ → List Word → Option (Bytes × ℕ)
  put_lines zero finish other_indent last words = none
  put_lines (suc fuel) finish other_indent last words = elim (length words == finish) [
    | true ↦ some ([], last)
    | false ↦
        let line = put_line words other_indent in
        elim (put_lines fuel finish other_indent line.1 (words_from (break_of words) words)) [
          | none ↦ none
          | some (out, last') ↦ some (line.0 ++ out, last')
        ]
  ]

  -- What put_paragraph writes, and the last_line_length behind it.
  unfoldable pub put_paragraph : Globals → ℕ → List Word → Option (Bytes × ℕ)
  put_paragraph globals finish word =
      let line = put_line word globals.first_indent in
      elim (put_lines (suc (length word)) finish globals.other_indent line.1
        (words_from (break_of word) word)) [
          | none ↦ none
          | some (out, last) ↦ some (line.0 ++ out, last)
        ]
