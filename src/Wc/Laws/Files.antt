-- ===== src/Wc/Laws/Files.antt =====
-- The loop of wc that counts only lines and bytes.
use lmcas.Base.{
  ℕ, zero, suc, ◌+◌, ◌-◌, ◌/◌, ◌<◌, Bool, true, false, [], ◌∷◌, ◌++◌, none, some, Bytes, leb, ◌==◌,
  if◌then◌else◌, length, length-append, newline, ◌≡◌, refl, ap, ◌∙◌, arith, Bool-cases, ◌⊎◌, inl,
  inr,
}
use lmcas.Head.Input.{Reader}
use lmcas.Head.Reads.{IsReadFrom, read_failed-IsReadFrom, read_end-IsReadFrom, read-IsReadFrom}
use lmcas.Head.Start.Laws.{read_cases, fewer_left}
use lmcas.Wc.{Counts, add_newlines, behind_newline, add_found, count_lines}
use lmcas.Wc.Laws.Texts.{newlines}

newlines-append : (xs ys : Bytes) → newlines (xs ++ ys) ≡ newlines xs + newlines ys
unfolding newlines
newlines-append [] ys = omega arith
newlines-append (c ∷ xs) ys = ground (arith, newlines-append xs ys)

add_newlines_lem : (lines : ℕ) (p : Bytes) → add_newlines lines p ≡ lines + newlines p
unfolding add_newlines newlines
add_newlines_lem lines [] = omega arith
add_newlines_lem lines (c ∷ p) =
    ground (arith, add_newlines_lem (if c == newline then lines + 1 else lines) p)

behind_cases :
    (p : Bytes)
    → ((behind_newline p ≡ none) × (newlines p ≡ 0))
      ⊎ ((p' : Bytes) × (behind_newline p ≡ some p')
          × (newlines p ≡ suc (newlines p'))
          × (length p' < length p))
unfolding behind_newline newlines
behind_cases [] = inl (refl, refl)
behind_cases (c ∷ p) = elim (Bool-cases (c == newline)) [
  | inl e ↦ inr (p, rw e refl, rw e refl, omega arith)
  | inr e ↦ elim (behind_cases p) [
    | inl (n, z) ↦ inl (rw e n, rw e z)
    | inr (p', n, s, l) ↦ inr (p', rw e n, rw e s, omega (arith, l))
  ]
]

none_found :
    (fuel lines : ℕ) (p : Bytes)
    → behind_newline p ≡ none
    → add_found (suc fuel) lines p ≡ some lines
unfolding add_found
none_found fuel lines p e = rw (add_found, e) refl

one_found :
    (fuel lines : ℕ) (p p' : Bytes)
    → behind_newline p ≡ some p'
    → add_found (suc fuel) lines p ≡ add_found fuel (lines + 1) p'
unfolding add_found
one_found fuel lines p p' e = rw (add_found, e) refl

add_found_lem :
    (fuel lines : ℕ) (p : Bytes)
    → length p < fuel
    → add_found fuel lines p ≡ some (lines + newlines p)
add_found_lem zero lines p enough = absurd (omega (arith, enough))
add_found_lem (suc fuel) lines p enough = elim (behind_cases p) [
  | inl (e, z) ↦ none_found fuel lines p e ∙ ap (λ (n : ℕ). some n) (omega (arith, z))
  | inr (p', e, s, l) ↦
      one_found fuel lines p p' e
      ∙ add_found_lem fuel (lines + 1) p' (omega (arith, l, enough))
      ∙ ap (λ (n : ℕ). some n) (omega (arith, s))
]

-- Either way of counting the lines of a buffer.
counted_lem :
    (long_lines : Bool) (lines : ℕ) (p : Bytes)
    → (if long_lines then add_found (suc (length p)) lines p else some (add_newlines lines p))
      ≡ some (lines + newlines p)
counted_lem true lines p = add_found_lem (suc (length p)) lines p (omega arith)
counted_lem false lines p = ap (λ (n : ℕ). some n) (add_newlines_lem lines p)

module _ (reader : Reader) (buffer_size : ℕ) (pos : 0 < buffer_size) where
  open reader use {Fd, rest, safe_read}

  lines_failed :
      (fuel lines bytes : ℕ) (long_lines : Bool) (fd : Fd)
      → safe_read buffer_size fd ≡ none
      → count_lines reader buffer_size (suc fuel) long_lines lines bytes fd
        ≡ some (record { lines = lines; words = 0; bytes = bytes; linelength = 0; ok = false })
  unfolding count_lines
  lines_failed fuel lines bytes long_lines fd r = rw (count_lines, r) refl

  lines_ended :
      (fuel lines bytes : ℕ) (long_lines : Bool) (fd fd' : Fd)
      → safe_read buffer_size fd ≡ some ([], fd')
      → count_lines reader buffer_size (suc fuel) long_lines lines bytes fd
        ≡ some (record { lines = lines; words = 0; bytes = bytes; linelength = 0; ok = true })
  unfolding count_lines
  lines_ended fuel lines bytes long_lines fd fd' r = rw (count_lines, r) refl

  lines_more :
      (fuel lines bytes c : ℕ) (long_lines : Bool) (others : Bytes) (fd fd' : Fd)
      → safe_read buffer_size fd ≡ some (c ∷ others, fd')
      → count_lines reader buffer_size (suc fuel) long_lines lines bytes fd
        ≡ count_lines reader buffer_size fuel
            (leb (lines + newlines (c ∷ others) - lines) (length (c ∷ others) / 15))
            (lines + newlines (c ∷ others))
            (bytes + length (c ∷ others))
            fd'
  unfolding count_lines
  lines_more fuel lines bytes c long_lines others fd fd' r =
      rw (count_lines, r, counted_lem long_lines lines (c ∷ others)) refl

  -- With a round for each byte and one more the loop for lines and bytes ends, whichever of its
  -- two ways of counting it takes for a buffer. What it adds are the line ends and the bytes of
  -- the file, or of the part in front of a read that failed.
  pub count_lines_lem :
      (fuel lines bytes : ℕ) (long_lines : Bool) (fd : Fd)
      → length (rest fd) < fuel
      → (counts : Counts) × (part : Bytes) × (count_lines reader buffer_size fuel long_lines lines
            bytes fd
          ≡ some counts)
        × IsReadFrom reader fd part counts.ok
        × (counts.lines ≡ lines + newlines part)
        × (counts.bytes ≡ bytes + length part)
  count_lines_lem zero lines bytes long_lines fd enough = absurd (omega (arith, enough))
  count_lines_lem (suc fuel) lines bytes long_lines fd enough =
      elim (read_cases (safe_read buffer_size fd)) [
        | inl r ↦ (
          _,
          [],
          lines_failed fuel lines bytes long_lines fd r,
          read_failed-IsReadFrom reader buffer_size fd r,
          unfold newlines in omega arith,
          omega arith,
        )
        | inr (inl (fd', r)) ↦ (
          _,
          [],
          lines_ended fuel lines bytes long_lines fd fd' r,
          read_end-IsReadFrom reader buffer_size fd fd' pos r,
          unfold newlines in omega arith,
          omega arith,
        )
        | inr (inr (c, others, fd', r)) ↦
            let (counts, part, ends, h, l, b) =
              count_lines_lem fuel (lines + newlines (c ∷ others)) (bytes + length (c ∷ others))
                (leb (lines + newlines (c ∷ others) - lines) (length (c ∷ others) / 15)) fd'
                (fewer_left reader buffer_size pos buffer_size fuel c others fd fd' r enough) in
            (
              counts,
              (c ∷ others) ++ part,
              lines_more fuel lines bytes c long_lines others fd fd' r ∙ ends,
              read-IsReadFrom reader buffer_size fd fd' (c ∷ others) part counts.ok r h,
              omega (arith, l, newlines-append (c ∷ others) part),
              omega (arith, b, length-append (c ∷ others) part),
            )
      ]
