-- ===== src/Wc/Laws/Texts.antt =====
-- The counts of a text, described without a loop, and count_buffer.
use Prim.Native.Nat.{max}
use lmcas.Base.{
  ℕ, suc, ◌+◌, Bool, true, false, ◌||◌, List, [], ◌∷◌, Bytes, ◌==◌, if◌then◌else◌, newline, ◌≡◌,
  refl, ap, ◌∙◌, arith, Bool-cases, inl, inr,
}
use lmcas.Wc.{Counter, add_if, longer, count_char, count_buffer}
use lmcas.Wc.Laws.{
  ends_line, separates, advance, lines-count_char, words-count_char, in_word-count_char,
  linepos-count_char, linelength-count_char,
}

unfoldable pub newlines : Bytes → ℕ
newlines [] = 0
newlines (c ∷ text) = if c == newline then suc (newlines text) else newlines text

-- A character in front of the first of some parts.
abbrev pub prepend : ℕ → List Bytes → List Bytes
prepend c [] = (c ∷ []) ∷ []
prepend c (part ∷ parts) = (c ∷ part) ∷ parts

-- The parts of a text between the characters that pass a test.
unfoldable pub split_at : (ℕ → Bool) → Bytes → List Bytes
split_at test [] = [] ∷ []
split_at test (c ∷ text) =
    let parts = split_at test text in if test c then [] ∷ parts else prepend c parts

unfoldable pub any : (ℕ → Bool) → Bytes → Bool
any test [] = false
any test (c ∷ text) = test c || any test text

-- How many parts have a character that passes a test, when the first one has one already or not.
unfoldable pub count_parts : (ℕ → Bool) → Bool → List Bytes → ℕ
unfolding any
count_parts test found [] = 0
count_parts test found (part ∷ parts) =
    add_if (found || any test part) (count_parts test false parts)

split_cases :
    (test : ℕ → Bool) (text : Bytes)
    → (part : Bytes) × (parts : List Bytes) × (split_at test text ≡ part ∷ parts)
unfolding split_at
split_cases test [] = ([], [], refl)
split_cases test (c ∷ text) =
    let (part, parts, e) = split_cases test text in
    elim (Bool-cases (test c)) [
      | inl t ↦ ([], split_at test text, rw t refl)
      | inr t ↦ (c ∷ part, parts, rw (t, e) refl)
    ]

word_end : (b : Bool) (words n : ℕ) → add_if b words + n ≡ words + add_if (b || false) n
word_end true words n = omega arith
word_end false words n = refl

or_assoc : (a b c : Bool) → ((a || b) || c) ≡ (a || (b || c))
or_assoc true b c = refl
or_assoc false b c = refl

max-longer : (a b n : ℕ) → max (longer a b) n ≡ max b (max a n)
max-longer a b n = ground arith

module _ (isprint isspace isnbspace : ℕ → Bool) where
  -- The column behind a line that begins at a column.
  unfoldable pub width_from : ℕ → Bytes → ℕ
  width_from column [] = column
  width_from column (c ∷ text) = width_from (advance isprint isspace isnbspace column c) text

  -- The longest of some lines, the first of which begins at a column.
  unfoldable pub longest : ℕ → List Bytes → ℕ
  unfolding width_from
  longest column [] = 0
  longest column (line ∷ lines) = max (width_from column line) (longest 0 lines)

  pub lines-count_buffer :
      (counter : Counter) (text : Bytes)
      → (count_buffer isprint isspace isnbspace counter text).lines ≡ counter.lines + newlines text
  unfolding count_buffer newlines
  lines-count_buffer counter [] = omega arith
  lines-count_buffer counter (c ∷ text) = ground (
    arith,
    lines-count_buffer (count_char isprint isspace isnbspace counter c) text,
    lines-count_char isprint isspace isnbspace counter c,
  )

  pub words-count_buffer :
      (counter : Counter) (text : Bytes)
      → add_if
          (count_buffer isprint isspace isnbspace counter text).in_word
          (count_buffer isprint isspace isnbspace counter text).words
        ≡ counter.words
          + count_parts isprint counter.in_word
              (split_at (separates isprint isspace isnbspace) text)
  unfolding count_buffer count_parts split_at
  words-count_buffer counter [] = omega (arith, word_end counter.in_word counter.words 0)
  words-count_buffer counter (c ∷ text) =
      let counter' = count_char isprint isspace isnbspace counter c in
      let further = words-count_buffer counter' text in
      let (part, parts, e) = split_cases (separates isprint isspace isnbspace) text in
      elim (Bool-cases (separates isprint isspace isnbspace c)) [
        | inl t ↦
            further
            ∙ rw
                (
                  words-count_char isprint isspace isnbspace counter c,
                  in_word-count_char isprint isspace isnbspace counter c,
                  t,
                )
                (word_end counter.in_word counter.words
                  (count_parts isprint false (split_at (separates isprint isspace isnbspace) text)))
        | inr t ↦
            further
            ∙ rw
                (
                  words-count_char isprint isspace isnbspace counter c,
                  in_word-count_char isprint isspace isnbspace counter c,
                  t,
                  e,
                )
                (ap (λ b. counter.words + add_if b (count_parts isprint false parts))
                  (or_assoc counter.in_word (isprint c) (any isprint part)))
      ]

  pub linelength-count_buffer :
      (counter : Counter) (text : Bytes)
      → longer
          (count_buffer isprint isspace isnbspace counter text).linepos
          (count_buffer isprint isspace isnbspace counter text).linelength
        ≡ max counter.linelength (longest counter.linepos (split_at ends_line text))
  unfolding count_buffer longest split_at
  linelength-count_buffer counter [] = ground arith
  linelength-count_buffer counter (c ∷ text) =
      let counter' = count_char isprint isspace isnbspace counter c in
      let further = linelength-count_buffer counter' text in
      let (part, parts, e) = split_cases ends_line text in
      elim (Bool-cases (ends_line c)) [
        | inl t ↦
            further
            ∙ rw
                (
                  linepos-count_char isprint isspace isnbspace counter c,
                  linelength-count_char isprint isspace isnbspace counter c,
                  t,
                )
                (max-longer counter.linepos counter.linelength
                  (longest 0 (split_at ends_line text)))
        | inr t ↦
            further
            ∙ rw
                (
                  linepos-count_char isprint isspace isnbspace counter c,
                  linelength-count_char isprint isspace isnbspace counter c,
                  t,
                  e,
                )
                refl
      ]
