-- ===== src/Wc.antt =====
-- wc of annotated_Dataset-1/wc.c: the loop that counts only lines and bytes, and the loop that also
-- counts words and the longest line, in a locale of single bytes.
--
-- The tests isprint, isspace and isnbspace of the locale are arguments. A count of the type
-- uintmax_t is a natural: it is at most eight times the number of bytes of the file. The loops take
-- fuel, one round for each byte that is to come and one more.
use lmcas.Base.{
  ℕ, zero, suc, ◌+◌, ◌-◌, ◌/◌, ◌%◌, Bool, true, false, not, ◌&&◌, ◌||◌, List, [], ◌∷◌, ◌++◌, Option,
  none, some, Bytes, ltb, leb, ◌==◌, if◌then◌else◌, length, newline,
}
use lmcas.Head.Input.{Reader}
pub mod Laws
mod Examples

-- `lines += *p++ == '\n'`, to the end of the buffer.
unfoldable pub add_newlines : ℕ → Bytes → ℕ
add_newlines lines [] = lines
add_newlines lines (c ∷ p) = add_newlines (if c == newline then lines + 1 else lines) p

-- `memchr (p, '\n', end - p)`, and the buffer behind what it finds.
unfoldable pub behind_newline : Bytes → Option Bytes
behind_newline [] = none
behind_newline (c ∷ p) = let further = behind_newline p in if c == newline then some p else further

-- The loop over memchr, on fuel for the lines that it finds.
unfoldable pub add_found : ℕ → ℕ → Bytes → Option ℕ
unfolding behind_newline
add_found zero lines p = none
add_found (suc fuel) lines p = elim (behind_newline p) [
  | none ↦ some lines
  | some p' ↦ add_found fuel (lines + 1) p'
]

-- What wc counts, and whether every read went well.
pub record Counts : Type 0 where
  pub lines : ℕ
  pub words : ℕ
  pub bytes : ℕ
  pub linelength : ℕ
  pub ok : Bool

-- What the loop that counts words keeps.
pub record Counter : Type 0 where
  pub lines : ℕ
  pub words : ℕ
  pub linelength : ℕ
  pub linepos : ℕ
  pub in_word : Bool

abbrev pub add_if : Bool → ℕ → ℕ
add_if true n = n + 1
add_if false n = n

abbrev pub longer : ℕ → ℕ → ℕ
longer linepos linelength = if ltb linelength linepos then linepos else linelength

-- From the label word_separator on.
abbrev pub word_separator : Counter → Counter
word_separator counter = record counter {
  words = add_if counter.in_word counter.words;
  in_word = false;
}

-- From the case of a carriage return on.
abbrev pub line_separator : Counter → Counter
line_separator counter =
    word_separator
      (record counter { linelength = longer counter.linepos counter.linelength; linepos = 0 })

module _ (reader : Reader) (buffer_size : ℕ) where
  open reader use {Fd, safe_read}

  unfoldable pub count_lines : ℕ → Bool → ℕ → ℕ → Fd → Option Counts
  count_lines zero long_lines lines bytes fd = none
  count_lines (suc fuel) long_lines lines bytes fd = elim (safe_read buffer_size fd) [
    | none ↦ some (record { lines = lines; words = 0; bytes = bytes; linelength = 0; ok = false })
    | some (buf, fd') ↦ elim buf [
      | [] ↦ some (record { lines = lines; words = 0; bytes = bytes; linelength = 0; ok = true })
      | c ∷ others ↦
          let counted =
            if long_lines
            then add_found (suc (length (c ∷ others))) lines (c ∷ others)
            else some (add_newlines lines (c ∷ others)) in
          elim counted [
            | none ↦ none
            | some lines' ↦
                count_lines fuel (leb (lines' - lines) (length (c ∷ others) / 15)) lines'
                  (bytes + length (c ∷ others)) fd'
          ]
    ]
  ]

module _ (isprint isspace isnbspace : ℕ → Bool) where
  unfoldable pub count_char : Counter → ℕ → Counter
  count_char counter c =
      if c == newline
      then line_separator (record counter { lines = counter.lines + 1 })
      else if c == b'\r' || c == 12
      then line_separator counter
      else if c == b'\t'
      then word_separator (record counter { linepos = counter.linepos + (8 - counter.linepos % 8) })
      else if c == b' '
      then word_separator (record counter { linepos = counter.linepos + 1 })
      else if c == 11
      then word_separator counter
      else if isprint c
      then (if isspace c || isnbspace c
          then word_separator (record counter { linepos = counter.linepos + 1 })
          else record counter { linepos = counter.linepos + 1; in_word = true })
      else counter

  unfoldable pub count_buffer : Counter → Bytes → Counter
  unfolding count_char
  count_buffer counter [] = counter
  count_buffer counter (c ∷ p) = count_buffer (count_char counter c) p

  module _ (reader : Reader) (buffer_size : ℕ) where
    open reader use {Fd, safe_read}

    unfoldable pub count_words : ℕ → Counter → ℕ → Fd → Option Counts
    count_words zero counter bytes fd = none
    count_words (suc fuel) counter bytes fd =
        let ended : Bool → Counts = λ ok. record {
          lines = counter.lines;
          words = add_if counter.in_word counter.words;
          bytes = bytes;
          linelength = longer counter.linepos counter.linelength;
          ok = ok;
        } in
        elim (safe_read buffer_size fd) [
          | none ↦ some (ended false)
          | some (buf, fd') ↦ elim buf [
            | [] ↦ some (ended true)
            | c ∷ others ↦
                count_words fuel (count_buffer counter (c ∷ others)) (bytes + length (c ∷ others))
                  fd'
          ]
        ]
