-- ===== src/Head/TailLines/Finish.antt =====
-- What is printed of the queue behind the end of the file; no null pointer is followed there.
use lmcas.Base.{
  ℕ, suc, ◌+◌, ◌-◌, ◌≤◌, ◌<◌, true, false, List, [], ◌∷◌, ◌++◌, some, Bytes, ltb, if◌then◌else◌,
  length, ◌≡◌, refl, sym, ap, ◌∙◌, arith, Bool-cases, ◌⊎◌, inl, inr, append_assoc, append-nil,
}
use lmcas.Head.Start.Laws.{first_lines, first_lines_zero}
use lmcas.Head.TailLines.{
  LBuffer, count_newlines, is_incomplete, lines_of_buffer, print_buffers, finish_lines,
}
use lmcas.Head.TailLines.Lines.{
  count_newlines-append, count_lines, is_incomplete-append, first_lines-append,
  lines_of_buffer-first_lines,
}

-- The bytes of buffers.
abbrev pub bytes_of : List LBuffer → Bytes
bytes_of [] = []
bytes_of (b ∷ next) = b.buffer ++ bytes_of next

abbrev pub lines_in : List LBuffer → ℕ
lines_in [] = 0
lines_in (b ∷ next) = b.nlines + lines_in next

-- Each buffer knows its line ends.
abbrev pub AllCounted : ℕ → List LBuffer → Type 0
AllCounted line_end [] = Unit
AllCounted line_end (b ∷ next) =
    (b.nlines ≡ count_newlines line_end b.buffer) × AllCounted line_end next

-- All but the last `n` lines.
abbrev pub drop_last_lines : ℕ → ℕ → Bytes → Bytes
drop_last_lines line_end n text = first_lines line_end (count_lines line_end text - n) text

pub bytes_of-append :
    (front others : List LBuffer) → bytes_of (front ++ others) ≡ bytes_of front ++ bytes_of others
bytes_of-append [] others = refl
bytes_of-append (b ∷ front) others =
    ap (λ (t : Bytes). b.buffer ++ t) (bytes_of-append front others)
    ∙ sym (append_assoc b.buffer (bytes_of front) (bytes_of others))

pub lines_in-count_newlines :
    (line_end : ℕ) (front : List LBuffer)
    → AllCounted line_end front
    → lines_in front ≡ count_newlines line_end (bytes_of front)
lines_in-count_newlines line_end [] h = unfold count_newlines in refl
lines_in-count_newlines line_end (b ∷ front) (e, h) = omega (
  arith,
  e,
  lines_in-count_newlines line_end front h,
  count_newlines-append line_end b.buffer (bytes_of front),
)

-- A queue whose buffers know their lines; only the first buffer may be empty.
pub record IsCounted (line_end : ℕ) (front : List LBuffer) (last : LBuffer) (total : ℕ)
    : Type 0 where
  pub in_front : AllCounted line_end front
  pub in_last : last.nlines ≡ count_newlines line_end last.buffer
  pub in_all : total ≡ lines_in front + last.nlines
  pub not_empty : (front ≡ []) ⊎ (0 < length last.buffer)

incomplete_part :
    (line_end : ℕ) (front : List LBuffer) (text : Bytes)
    → (front ≡ []) ⊎ (0 < length text)
    → is_incomplete line_end (bytes_of front ++ text) ≡ is_incomplete line_end text
incomplete_part line_end front text (inl e) =
    ap (λ (l : List LBuffer). is_incomplete line_end (bytes_of l ++ text)) e
incomplete_part line_end front text (inr h) = is_incomplete-append line_end (bytes_of front) text h

count_lines-bytes_of :
    (line_end : ℕ) (front : List LBuffer) (last : LBuffer) (total : ℕ)
    → IsCounted line_end front last total
    → count_lines line_end (bytes_of front ++ last.buffer)
      ≡ total + (if is_incomplete line_end last.buffer then 1 else 0)
count_lines-bytes_of line_end front last total h =
    rw (incomplete_part line_end front last.buffer h.not_empty) (
      ap (λ k. k + (if is_incomplete line_end last.buffer then 1 else 0))
        (omega (
          arith,
          count_newlines-append line_end (bytes_of front) last.buffer,
          lines_in-count_newlines line_end front h.in_front,
          h.in_last,
          h.in_all,
        )))

module _ (bufsiz line_end n_elide : ℕ) where
  buffer_printed :
      (total : ℕ) (tmp : LBuffer) (next : List LBuffer) (out : Bytes)
      → ltb n_elide (total - tmp.nlines) ≡ true
      → print_buffers bufsiz line_end n_elide (total - tmp.nlines) next ≡ some out
      → print_buffers bufsiz line_end n_elide total (tmp ∷ next) ≡ some (tmp.buffer ++ out)
  unfolding print_buffers
  buffer_printed total tmp next out e f = rw (e, f) refl

  buffer_cut :
      (total : ℕ) (tmp : LBuffer) (next : List LBuffer)
      → ltb n_elide (total - tmp.nlines) ≡ false
      → ltb n_elide total ≡ true
      → print_buffers bufsiz line_end n_elide total (tmp ∷ next)
        ≡ lines_of_buffer line_end (total - n_elide) tmp.buffer
  unfolding print_buffers
  buffer_cut total tmp next e f = rw (e, f) refl

  none_printed :
      (total : ℕ) (tmp : LBuffer) (next : List LBuffer)
      → ltb n_elide (total - tmp.nlines) ≡ false
      → ltb n_elide total ≡ false
      → print_buffers bufsiz line_end n_elide total (tmp ∷ next) ≡ some []
  unfolding print_buffers
  none_printed total tmp next e f = rw (e, f) refl

  -- The lines of the last buffer may be one more than its line ends, if a line is elided.
  print_buffers_lem :
      (total extra : ℕ) (front : List LBuffer) (last : LBuffer)
      → AllCounted line_end front
      → last.nlines ≡ count_newlines line_end last.buffer + extra
      → (total ≡ 0) ⊎ (extra ≤ n_elide)
      → total ≡ lines_in front + last.nlines
      → print_buffers bufsiz line_end n_elide total (front ++ last ∷ [])
        ≡ some (first_lines line_end (total - n_elide) (bytes_of (front ++ last ∷ [])))
  print_buffers_lem total extra [] last counted e room sum =
      let stop : ltb n_elide (total - last.nlines) ≡ false = ground (arith, sum) in
      elim (Bool-cases (ltb n_elide total)) [
        | inl more ↦
            buffer_cut total last [] stop more
            ∙ lines_of_buffer-first_lines line_end (total - n_elide) last.buffer []
                (ground (arith, e, room, sum, more))
        | inr less ↦
            let nothing : total - n_elide ≡ 0 = ground (arith, less) in
            none_printed total last [] stop less
            ∙ ap (λ (t : Bytes). some t)
                (rw (nothing, first_lines_zero line_end (last.buffer ++ [])) refl)
      ]
  print_buffers_lem total extra (b ∷ front) last (at, counted) e room sum =
      let left : total - b.nlines ≡ lines_in front + last.nlines = omega (arith, sum) in
      elim (Bool-cases (ltb n_elide (total - b.nlines))) [
        | inl more ↦
            let j = total - b.nlines - n_elide - 1 in
            let rest =
              print_buffers_lem (total - b.nlines) extra front last counted e
                (ground (arith, room, more)) left in
            let wanted : total - n_elide ≡ count_newlines line_end b.buffer + suc j =
              ground (arith, at, more) in
            let remaining : total - b.nlines - n_elide ≡ suc j = ground (arith, more) in
            buffer_printed total b (front ++ last ∷ []) _ more rest
            ∙ ap (λ (t : Bytes). some t)
                (rw (remaining, wanted)
                  (sym (first_lines-append line_end j b.buffer (bytes_of (front ++ last ∷ [])))))
        | inr stop ↦ elim (Bool-cases (ltb n_elide total)) [
          | inl more ↦
              buffer_cut total b (front ++ last ∷ []) stop more
              ∙ lines_of_buffer-first_lines line_end (total - n_elide) b.buffer
                  (bytes_of (front ++ last ∷ [])) (ground (arith, at, stop, more))
          | inr less ↦
              let nothing : total - n_elide ≡ 0 = ground (arith, less) in
              none_printed total b (front ++ last ∷ []) stop less
              ∙ ap (λ (t : Bytes). some t)
                  (rw (nothing, first_lines_zero line_end (bytes_of (b ∷ front ++ last ∷ []))) refl)
        ]
      ]

  finish_incomplete :
      (front : List LBuffer) (last : LBuffer) (total : ℕ)
      → is_incomplete line_end last.buffer ≡ true
      → finish_lines bufsiz line_end n_elide (record { front = front; last = last }) total
        ≡ print_buffers bufsiz line_end n_elide
            (suc total)
            (front ++ record last { nlines = suc last.nlines } ∷ [])
  unfolding finish_lines
  finish_incomplete front last total e = rw e refl

  finish_complete :
      (front : List LBuffer) (last : LBuffer) (total : ℕ)
      → is_incomplete line_end last.buffer ≡ false
      → finish_lines bufsiz line_end n_elide (record { front = front; last = last }) total
        ≡ print_buffers bufsiz line_end n_elide total (front ++ last ∷ [])
  unfolding finish_lines
  finish_complete front last total e = rw e refl

  -- All but the last lines of what the queue holds are printed.
  pub finish_lines_lem :
      (front : List LBuffer) (last : LBuffer) (total : ℕ)
      → 0 < n_elide
      → IsCounted line_end front last total
      → finish_lines bufsiz line_end n_elide (record { front = front; last = last }) total
        ≡ some (drop_last_lines line_end n_elide (bytes_of front ++ last.buffer))
  finish_lines_lem front last total pos h =
      let count = count_lines-bytes_of line_end front last total h in
      let whole : (nlines : ℕ)
          → bytes_of (front ++ record last { nlines = nlines } ∷ [])
            ≡ bytes_of front ++ last.buffer =
        λ nlines.
          bytes_of-append front (record last { nlines = nlines } ∷ [])
          ∙ ap (λ (t : Bytes). bytes_of front ++ t) (append-nil last.buffer) in
      elim (Bool-cases (is_incomplete line_end last.buffer)) [
        | inl e ↦
            finish_incomplete front last total e
            ∙ print_buffers_lem (suc total) 1 front (record last { nlines = suc last.nlines })
                h.in_front (omega (arith, h.in_last)) (inr pos) (omega (arith, h.in_all))
            ∙ ap (λ (t : Bytes). some t)
                (rw (whole (suc last.nlines), count, e)
                  (ap (λ k. first_lines line_end (k - n_elide) (bytes_of front ++ last.buffer))
                    (omega arith)))
        | inr e ↦
            finish_complete front last total e
            ∙ print_buffers_lem total 0 front last h.in_front (omega (arith, h.in_last))
                (inr (omega arith)) h.in_all
            ∙ ap (λ (t : Bytes). some t)
                (rw (whole last.nlines, count, e)
                  (ap (λ k. first_lines line_end (k - n_elide) (bytes_of front ++ last.buffer))
                    (omega arith)))
      ]
