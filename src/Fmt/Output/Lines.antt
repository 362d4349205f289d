-- ===== src/Fmt/Output/Lines.antt =====
-- put_line: a line prints the words in front of the break that is noted at its first word.
use lmcas.Base.{
  ℕ, ◌+◌, ◌-◌, ◌<◌, Bool, true, false, List, [], ◌∷◌, ◌++◌, Bytes, ◌==◌, length, length-append,
  newline, ◌≡◌, refl, ap, ◌∙◌, arith, ◌⊎◌,
}
use lmcas.Fmt.{Word}
use lmcas.Fmt.Search.{line_end}
use lmcas.Fmt.Output.{Layout, put_space, put_words, put_line}
use lmcas.Fmt.Output.Spaces.{put_space-get_space}

module _ (layout : Layout) where
  -- The words of a line with the blanks between them, from a column on.
  unfoldable pub text_of_words : ℕ → Word → List Word → Bytes
  text_of_words column w [] = w.text
  text_of_words column w (v ∷ others) =
      w.text
      ++ (put_space layout.tabs (column + w.length_of) w.space).0
      ++ text_of_words (column + w.length_of + w.space) v others

  -- What stands in front of the words of a line.
  abbrev pub indentation : ℕ → Bytes
  indentation indent =
      (put_space layout.tabs 0 layout.prefix_indent).0
      ++ layout.prefix
      ++ (put_space layout.tabs (layout.prefix_indent + layout.prefix_length)
          (indent - (layout.prefix_indent + layout.prefix_length))).0

  -- The column where the words of a line begin.
  abbrev pub margin : ℕ → ℕ
  margin indent =
      layout.prefix_indent
      + layout.prefix_length
      + (indent - (layout.prefix_indent + layout.prefix_length))

  -- Lines that print words in order: the first one with one indent, the others with another. A line
  -- of more than one word is shorter than the width.
  pub data Prints (max_width other_indent : ℕ) : ℕ → List Word → Bytes → Type 0 where
    no_more : {indent : ℕ} → Prints max_width other_indent indent [] []
    line :
        {indent : ℕ} (w : Word) (front back : List Word) (out : Bytes)
        → (front ≡ [])
          ⊎ (line_end (indent + w.length_of) w.space (front ++ back) (length front) < max_width)
        → Prints max_width other_indent other_indent back out
        → Prints max_width other_indent indent
            (w ∷ front ++ back)
            ((indentation indent ++ text_of_words (margin indent) w front ++ newline ∷ []) ++ out)

  put_space_column :
      (tabs : Bool) (column space : ℕ) → (put_space tabs column space).1 ≡ column + space
  put_space_column tabs column space = (put_space-get_space tabs false column space [] tt).0

  zero_add : (n : ℕ) → 0 + n ≡ n
  zero_add n = omega arith

  put_words_last :
      (w : Word) (back : List Word) (column : ℕ)
      → put_words layout (length back) column (w ∷ back) ≡ (w.text, column + w.length_of)
  unfolding put_words
  put_words_last w back column =
      let same : (length back == length back) ≡ true = ground arith in rw same refl

  put_words_more :
      (w v : Word) (others : List Word) (finish column : ℕ)
      → (length (v ∷ others) == finish) ≡ false
      → put_words layout finish column (w ∷ v ∷ others) ≡ (
        w.text
            ++ (put_space layout.tabs (column + w.length_of) w.space).0
            ++ (put_words layout finish (column + w.length_of + w.space) (v ∷ others)).0,
        (put_words layout finish (column + w.length_of + w.space) (v ∷ others)).1,
      )
  unfolding put_words
  put_words_more w v others finish column e =
      rw (e, put_space_column layout.tabs (column + w.length_of) w.space) refl

  put_words_lem :
      (w : Word) (front back : List Word) (column : ℕ)
      → put_words layout (length back) column (w ∷ front ++ back) ≡ (
        text_of_words column w front,
        line_end (column + w.length_of) w.space (front ++ back) (length front),
      )
  unfolding text_of_words line_end
  put_words_lem w [] back column = put_words_last w back column
  put_words_lem w (v ∷ front) back column =
      let more : (length (v ∷ (front ++ back)) == length back) ≡ false =
        ground (arith, length-append front back) in
      rw
        (
          put_words_more w v (front ++ back) (length back) column more,
          put_words_lem v front back (column + w.length_of + w.space),
        )
        (ap
          (λ k. (
            w.text
                ++ (put_space layout.tabs (column + w.length_of) w.space).0
                ++ text_of_words (column + w.length_of + w.space) v front,
            line_end k v.space (front ++ back) (length front),
          ))
          (omega arith))

  pub put_line_lem :
      (w : Word) (front back : List Word) (indent : ℕ)
      → w.next_break ≡ length back
      → put_line layout (w ∷ front ++ back) indent ≡ (
        indentation indent ++ text_of_words (margin indent) w front ++ newline ∷ [],
        line_end (margin indent + w.length_of) w.space (front ++ back) (length front),
      )
  unfolding put_line
  put_line_lem w front back indent e =
      rw
        (
          put_space_column layout.tabs 0 layout.prefix_indent ∙ zero_add layout.prefix_indent,
          put_space_column layout.tabs (layout.prefix_indent + layout.prefix_length)
              (indent - (layout.prefix_indent + layout.prefix_length)),
          ap (λ n. put_words layout n (margin indent) (w ∷ front ++ back)) e
              ∙ put_words_lem w front back (margin indent),
        )
        refl
