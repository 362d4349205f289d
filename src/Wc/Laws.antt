-- ===== src/Wc/Laws.antt =====
-- One character of wc: what it does to the counts.
use Prim.Native.Nat.{max}
use lmcas.Base.{
  ℕ, zero, suc, ◌+◌, ◌-◌, ◌/◌, ◌%◌, ◌≤◌, ◌<◌, Bool, true, false, not, ◌&&◌, ◌||◌, List, [], ◌∷◌,
  ◌++◌, Option, none, some, Bytes, ltb, leb, ◌==◌, if◌then◌else◌, length, newline, ◌≡◌, refl, sym,
  ap, subst, ◌∙◌, arith, Bool-cases, inl, inr,
}
use lmcas.Wc.{Counter, add_if, longer, count_char}
pub mod Texts
pub mod Files
pub mod Words

-- Line ends, carriage returns and form feeds end a line on the screen.
abbrev pub ends_line : ℕ → Bool
ends_line c = c == newline || (c == b'\r' || c == 12)

module _ (isprint isspace isnbspace : ℕ → Bool) where
  -- These end a word.
  abbrev pub separates : ℕ → Bool
  separates c =
      ends_line c
      || (c == b'\t' || (c == b' ' || (c == 11 || (isprint c && (isspace c || isnbspace c)))))

  -- The column behind a character that does not end the line.
  abbrev pub advance : ℕ → ℕ → ℕ
  advance column c =
      if c == b'\t'
      then column + (8 - column % 8)
      else if c == b' '
      then column + 1
      else if c == 11
      then column
      else if isprint c
      then column + 1
      else column

  pub lines-count_char :
      (counter : Counter) (c : ℕ)
      → (count_char isprint isspace isnbspace counter c).lines
        ≡ (if c == newline then counter.lines + 1 else counter.lines)
  unfolding count_char
  lines-count_char counter c = ground arith

  pub words-count_char :
      (counter : Counter) (c : ℕ)
      → (count_char isprint isspace isnbspace counter c).words
        ≡ (if separates c then add_if counter.in_word counter.words else counter.words)
  unfolding count_char
  words-count_char counter c = ground arith

  pub in_word-count_char :
      (counter : Counter) (c : ℕ)
      → (count_char isprint isspace isnbspace counter c).in_word
        ≡ (if separates c then false else counter.in_word || isprint c)
  unfolding count_char
  in_word-count_char counter c = ground arith

  pub linepos-count_char :
      (counter : Counter) (c : ℕ)
      → (count_char isprint isspace isnbspace counter c).linepos
        ≡ (if ends_line c then 0 else advance counter.linepos c)
  unfolding count_char
  linepos-count_char counter c = ground arith

  pub linelength-count_char :
      (counter : Counter) (c : ℕ)
      → (count_char isprint isspace isnbspace counter c).linelength
        ≡ (if ends_line c then longer counter.linepos counter.linelength else counter.linelength)
  unfolding count_char
  linelength-count_char counter c = ground arith
