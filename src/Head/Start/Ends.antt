-- ===== src/Head/Start/Ends.antt =====
-- head_bytes and head_lines end and write the first bytes and lines of the file, or of the part in
-- front of a read that fails.
use lmcas.Base.{
  ℕ, zero, suc, ◌-◌, ◌≤◌, ◌<◌, true, false, [], ◌∷◌, ◌++◌, none, some, Bytes, ltb, ◌==◌,
  if◌then◌else◌, length, take, ◌≡◌, refl, sym, ap, ◌∙◌, arith, Bool-cases, inl, inr,
}
use lmcas.Head.Input.{Reader}
use lmcas.Head.Start.{Copied, wrote, scan_lines, head_bytes, head_lines}
use lmcas.Head.Start.Laws.{
  first_lines, first_lines_zero, take-append, take_nothing, scan_lines-first_lines, read_cases,
  fewer_left,
}
use lmcas.Head.Reads.{
  IsReadFrom, all-IsRead, read_failed-IsReadFrom, read_end-IsReadFrom, read-IsReadFrom, wrote_lem,
}

module _ (reader : Reader) (bufsiz : ℕ) (pos : 0 < bufsiz) where
  open reader use {Fd, rest, safe_read}

  bytes_done :
      (fuel k : ℕ) (fd : Fd)
      → head_bytes reader bufsiz (suc fuel) k 0 fd ≡ some (record { out = []; ok = true })
  unfolding head_bytes
  bytes_done fuel k fd = refl

  bytes_failed :
      (fuel k n : ℕ) (fd : Fd)
      → (n == 0) ≡ false
      → safe_read (if ltb n k then n else k) fd ≡ none
      → head_bytes reader bufsiz (suc fuel) k n fd ≡ some (record { out = []; ok = false })
  unfolding head_bytes
  bytes_failed fuel k n fd e r = rw (e, head_bytes, r) refl

  bytes_end :
      (fuel k n : ℕ) (fd fd' : Fd)
      → (n == 0) ≡ false
      → safe_read (if ltb n k then n else k) fd ≡ some ([], fd')
      → head_bytes reader bufsiz (suc fuel) k n fd ≡ some (record { out = []; ok = true })
  unfolding head_bytes
  bytes_end fuel k n fd fd' e r = rw (e, head_bytes, r) refl

  bytes_more :
      (fuel k n c : ℕ) (others : Bytes) (fd fd' : Fd)
      → (n == 0) ≡ false
      → safe_read (if ltb n k then n else k) fd ≡ some (c ∷ others, fd')
      → head_bytes reader bufsiz (suc fuel) k n fd
        ≡ wrote
            (c ∷ others)
            (head_bytes reader bufsiz fuel (if ltb n k then n else k) (n - length (c ∷ others)) fd')
  unfolding head_bytes
  bytes_more fuel k n c others fd fd' e r = rw (e, head_bytes, r) refl

  -- With a round for each byte and one more head_bytes ends. It writes the first n bytes of the
  -- file, or, when it reports a failure, of the part in front of a read that failed.
  pub head_bytes_lem :
      (fuel bytes_to_read n : ℕ) (fd : Fd)
      → 0 < bytes_to_read
      → length (rest fd) < fuel
      → (r : Copied) × (part : Bytes) × (head_bytes reader bufsiz fuel bytes_to_read n fd ≡ some r)
        × IsReadFrom reader fd part r.ok
        × (r.out ≡ take n part)
  head_bytes_lem zero k n fd room enough = absurd (omega arith)
  head_bytes_lem (suc fuel) k n fd room enough =
      let count = if ltb n k then n else k in
      elim (Bool-cases (n == 0)) [
        | inl e ↦
            let none_left : n ≡ 0 = ground (arith, e) in
            rw none_left
              (_, rest fd, bytes_done fuel k fd, all-IsRead (rest fd) (rest fd) refl, refl)
        | inr e ↦
            let positive : 0 < count = ground (arith, e) in
            let below : count ≤ n = ground arith in
            elim (read_cases (safe_read count fd)) [
              | inl r ↦ (
                _,
                [],
                bytes_failed fuel k n fd e r,
                read_failed-IsReadFrom reader count fd r,
                sym (take_nothing n),
              )
              | inr (inl (fd', r)) ↦ (
                _,
                [],
                bytes_end fuel k n fd fd' e r,
                read_end-IsReadFrom reader count fd fd' positive r,
                sym (take_nothing n),
              )
              | inr (inr (c, others, fd', r)) ↦
                  let chunk : Bytes = c ∷ others in
                  let fitting = reader.at_most_count count fd fd' chunk r in
                  let (copied, part, ends, h, o) =
                    head_bytes_lem fuel count (n - length chunk) fd' positive
                      (fewer_left reader bufsiz pos count fuel c others fd fd' r enough) in
                  (
                    record copied { out = chunk ++ copied.out },
                    chunk ++ part,
                    bytes_more fuel k n c others fd fd' e r ∙ wrote_lem chunk _ copied ends,
                    read-IsReadFrom reader count fd fd' chunk part copied.ok r h,
                    ap (λ (l : Bytes). chunk ++ l) o
                        ∙ sym (take-append n chunk part (omega (arith, fitting))),
                  )
            ]
      ]

  lines_done :
      (fuel line_end : ℕ) (fd : Fd)
      → head_lines reader bufsiz (suc fuel) line_end 0 fd ≡ some (record { out = []; ok = true })
  unfolding head_lines
  lines_done fuel line_end fd = refl

  lines_failed :
      (fuel line_end n : ℕ) (fd : Fd)
      → (n == 0) ≡ false
      → safe_read bufsiz fd ≡ none
      → head_lines reader bufsiz (suc fuel) line_end n fd ≡ some (record { out = []; ok = false })
  unfolding head_lines
  lines_failed fuel line_end n fd e r = rw (e, head_lines, r) refl

  lines_end :
      (fuel line_end n : ℕ) (fd fd' : Fd)
      → (n == 0) ≡ false
      → safe_read bufsiz fd ≡ some ([], fd')
      → head_lines reader bufsiz (suc fuel) line_end n fd ≡ some (record { out = []; ok = true })
  unfolding head_lines
  lines_end fuel line_end n fd fd' e r = rw (e, head_lines, r) refl

  lines_more :
      (fuel line_end n c : ℕ) (others : Bytes) (fd fd' : Fd)
      → (n == 0) ≡ false
      → safe_read bufsiz fd ≡ some (c ∷ others, fd')
      → head_lines reader bufsiz (suc fuel) line_end n fd
        ≡ wrote
            (take ((scan_lines line_end n (c ∷ others)).0) (c ∷ others))
            (head_lines reader bufsiz fuel line_end ((scan_lines line_end n (c ∷ others)).1) fd')
  unfolding head_lines
  lines_more fuel line_end n c others fd fd' e r = rw (e, head_lines, r) refl

  -- With a round for each byte and one more head_lines ends. It writes the file up to its n-th line
  -- end, or, when it reports a failure, the part in front of a read that failed, up to the same.
  pub head_lines_lem :
      (fuel line_end n : ℕ) (fd : Fd)
      → length (rest fd) < fuel
      → (r : Copied) × (part : Bytes) × (head_lines reader bufsiz fuel line_end n fd ≡ some r)
        × IsReadFrom reader fd part r.ok
        × (r.out ≡ first_lines line_end n part)
  head_lines_lem zero line_end n fd enough = absurd (omega arith)
  head_lines_lem (suc fuel) line_end n fd enough = elim (Bool-cases (n == 0)) [
    | inl e ↦
        let none_left : n ≡ 0 = ground (arith, e) in
        rw none_left (
          _,
          rest fd,
          lines_done fuel line_end fd,
          all-IsRead (rest fd) (rest fd) refl,
          sym (first_lines_zero line_end (rest fd)),
        )
    | inr e ↦ elim (read_cases (safe_read bufsiz fd)) [
      | inl r ↦ (
        _,
        [],
        lines_failed fuel line_end n fd e r,
        read_failed-IsReadFrom reader bufsiz fd r,
        unfold first_lines in refl,
      )
      | inr (inl (fd', r)) ↦ (
        _,
        [],
        lines_end fuel line_end n fd fd' e r,
        read_end-IsReadFrom reader bufsiz fd fd' pos r,
        unfold first_lines in refl,
      )
      | inr (inr (c, others, fd', r)) ↦
          let chunk : Bytes = c ∷ others in
          let scanned = scan_lines line_end n chunk in
          let (copied, part, ends, h, o) =
            head_lines_lem fuel line_end scanned.1 fd'
              (fewer_left reader bufsiz pos bufsiz fuel c others fd fd' r enough) in
          (
            record copied { out = take scanned.0 chunk ++ copied.out },
            chunk ++ part,
            lines_more fuel line_end n c others fd fd' e r
                ∙ wrote_lem (take scanned.0 chunk) _ copied ends,
            read-IsReadFrom reader bufsiz fd fd' chunk part copied.ok r h,
            ap (λ (l : Bytes). take scanned.0 chunk ++ l) o
                ∙ sym (scan_lines-first_lines line_end n chunk part e),
          )
    ]
  ]
