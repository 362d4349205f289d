-- ===== src/Head/TailLines/Lines.antt =====
-- Counting the lines of a text, and taking the first of them.
use lmcas.Base.{
  ℕ, zero, suc, ◌+◌, ◌-◌, ◌≤◌, ◌<◌, true, false, [], ◌∷◌, ◌++◌, some, Bytes, ◌==◌, if◌then◌else◌,
  length, ◌≡◌, refl, sym, ap, arith, Bool-cases, inl, inr,
}
use lmcas.Head.Start.Laws.{first_lines, first_lines_zero, first_lines_end, first_lines_char}
use lmcas.Head.TailLines.{count_newlines, lines_of_buffer, is_incomplete}

module _ (line_end : ℕ) where
  pub count_newlines-append :
      (xs ys : Bytes)
      → count_newlines line_end (xs ++ ys) ≡ count_newlines line_end xs + count_newlines line_end ys
  unfolding count_newlines
  count_newlines-append [] ys = omega arith
  count_newlines-append (c ∷ xs) ys = ground (arith, count_newlines-append xs ys)

  -- The lines of a text, an incomplete last one included.
  abbrev pub count_lines : Bytes → ℕ
  count_lines text = count_newlines line_end text + (if is_incomplete line_end text then 1 else 0)

  pub is_incomplete-append :
      (xs ys : Bytes)
      → 0 < length ys
      → is_incomplete line_end (xs ++ ys) ≡ is_incomplete line_end ys
  unfolding is_incomplete
  is_incomplete-append [] ys h = refl
  is_incomplete-append (c ∷ []) [] h = absurd (omega (arith, h))
  is_incomplete-append (c ∷ []) (d ∷ ys) h = refl
  is_incomplete-append (c ∷ d ∷ xs) ys h = is_incomplete-append (d ∷ xs) ys h

  -- Past a part of the text that has fewer line ends.
  pub first_lines-append :
      (j : ℕ) (xs ys : Bytes)
      → first_lines line_end (count_newlines line_end xs + suc j) (xs ++ ys)
        ≡ xs ++ first_lines line_end (suc j) ys
  unfolding count_newlines
  first_lines-append j [] ys = ap (λ k. first_lines line_end k ys) (omega arith)
  first_lines-append j (c ∷ xs) ys = elim (Bool-cases (c == line_end)) [
    | inl e ↦
        let some_left : (suc (count_newlines line_end xs) + suc j == 0) ≡ false = ground arith in
        let one_less : suc (count_newlines line_end xs) + suc j - 1
            ≡ count_newlines line_end xs + suc j =
          omega arith in
        rw
          (
            e,
            first_lines_end line_end (suc (count_newlines line_end xs) + suc j) c (xs ++ ys)
                some_left e,
            one_less,
          )
          (ap (λ (l : Bytes). c ∷ l) (first_lines-append j xs ys))
    | inr e ↦
        let some_left : (count_newlines line_end xs + suc j == 0) ≡ false = ground arith in
        rw
          (
            e,
            first_lines_char line_end (count_newlines line_end xs + suc j) c (xs ++ ys) some_left e,
          )
          (ap (λ (l : Bytes). c ∷ l) (first_lines-append j xs ys))
  ]

  -- A buffer with that many line ends holds the first lines.
  pub lines_of_buffer-first_lines :
      (n : ℕ) (xs ys : Bytes)
      → n ≤ count_newlines line_end xs
      → lines_of_buffer line_end n xs ≡ some (first_lines line_end n (xs ++ ys))
  unfolding count_newlines lines_of_buffer
  lines_of_buffer-first_lines zero xs ys h =
      ap (λ (t : Bytes). some t) (sym (first_lines_zero line_end (xs ++ ys)))
  lines_of_buffer-first_lines (suc n) [] ys h = absurd (omega (arith, h))
  lines_of_buffer-first_lines (suc n) (c ∷ xs) ys h =
      let positive : (suc n == 0) ≡ false = ground arith in
      let one_less : suc n - 1 ≡ n = omega arith in
      elim (Bool-cases (c == line_end)) [
        | inl e ↦
            let found = lines_of_buffer-first_lines n xs ys (ground (arith, h, e)) in
            rw (e, found, first_lines_end line_end (suc n) c (xs ++ ys) positive e, one_less) refl
        | inr e ↦
            let found = lines_of_buffer-first_lines (suc n) xs ys (ground (arith, h, e)) in
            rw (e, found, first_lines_char line_end (suc n) c (xs ++ ys) positive e) refl
      ]

  count_lines_end :
      (c : ℕ) (text : Bytes)
      → (c == line_end) ≡ true
      → count_lines (c ∷ text) ≡ suc (count_lines text)
  unfolding count_newlines is_incomplete
  count_lines_end c [] e = rw e (omega arith)
  count_lines_end c (d ∷ text) e = rw e (omega arith)

  count_lines_char :
      (c d : ℕ) (text : Bytes)
      → (c == line_end) ≡ false
      → count_lines (c ∷ d ∷ text) ≡ count_lines (d ∷ text)
  unfolding count_newlines is_incomplete
  count_lines_char c d text e = rw e refl

  count_lines_last : (c : ℕ) → (c == line_end) ≡ false → count_lines (c ∷ []) ≡ 1
  unfolding count_newlines is_incomplete
  count_lines_last c e = rw e refl

  fewer_lines :
      (c : ℕ) (text : Bytes) (n : ℕ)
      → (c == line_end) ≡ false
      → count_lines (c ∷ text) ≤ n
      → count_lines text ≤ n
  fewer_lines c [] n e h = unfold count_newlines is_incomplete in omega arith
  fewer_lines c (d ∷ text) n e h = omega (arith, h, count_lines_char c d text e)

  count_lines_pos : (c : ℕ) (text : Bytes) → 0 < count_lines (c ∷ text)
  count_lines_pos c [] = elim (Bool-cases (c == line_end)) [
    | inl e ↦ rw (count_lines_end c [] e) (omega arith)
    | inr e ↦ rw (count_lines_last c e) (omega arith)
  ]
  count_lines_pos c (d ∷ text) = elim (Bool-cases (c == line_end)) [
    | inl e ↦ rw (count_lines_end c (d ∷ text) e) (omega arith)
    | inr e ↦ rw (count_lines_char c d text e) (count_lines_pos d text)
  ]

  -- All lines are the text.
  pub first_lines-all :
      (n : ℕ) (text : Bytes) → count_lines text ≤ n → first_lines line_end n text ≡ text
  first_lines-all n [] h = unfold first_lines in refl
  first_lines-all n (c ∷ text) h =
      let positive : (n == 0) ≡ false = ground (arith, h, count_lines_pos c text) in
      elim (Bool-cases (c == line_end)) [
        | inl e ↦ rw (first_lines_end line_end n c text positive e) (
            ap (λ (l : Bytes). c ∷ l)
              (first_lines-all (n - 1) text (omega (arith, h, count_lines_end c text e))))
        | inr e ↦
            rw (first_lines_char line_end n c text positive e)
              (ap (λ (l : Bytes). c ∷ l) (first_lines-all n text (fewer_lines c text n e h)))
      ]
