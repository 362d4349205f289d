-- ===== src/Head/TailLines/Whole.antt =====
-- elide_tail_lines_pipe writes all but the last lines of the file.
use lmcas.Base.{
  ℕ, zero, suc, ◌-◌, ◌<◌, true, false, List, [], ◌∷◌, ◌++◌, none, some, Bytes, ◌==◌, length, ◌≡◌,
  refl, sym, ap, subst, ◌∙◌, arith, Bool-cases, inl, inr, append_assoc, append-nil,
}
use lmcas.Head.Input.{Reader}
use lmcas.Head.Start.{Copied, wrote}
use lmcas.Head.Start.Laws.{read_cases, fewer_left}
use lmcas.Head.Reads.{
  IsReadFrom, read_failed-IsReadFrom, read_end-IsReadFrom, read-IsReadFrom, wrote_lem,
}
use lmcas.Head.TailLines.{
  LBuffer, Queue, count_newlines, add_buffer, finish_lines, elide_tail_lines_pipe, empty_queue,
}
use lmcas.Head.TailLines.Lines.{count_lines, first_lines-all}
use lmcas.Head.TailLines.Finish.{bytes_of, drop_last_lines, IsCounted, finish_lines_lem}
use lmcas.Head.TailLines.Laws.{add_buffer_lem}

-- What is written of `whole`: all of it when `ok`, and a first part of it in any case.
pub record Delivers (whole : Bytes) (copied : Copied) : Type 0 where
  pub missing : Bytes
  pub parts : whole ≡ copied.out ++ missing
  pub complete : copied.ok ≡ true → missing ≡ []

wrote-Delivers :
    (chunk whole : Bytes) (copied : Copied)
    → Delivers whole copied
    → Delivers (chunk ++ whole) (record copied { out = chunk ++ copied.out })
wrote-Delivers chunk whole copied h = record {
  missing = h.missing;
  parts = ap (λ (l : Bytes). chunk ++ l) h.parts ∙ sym (append_assoc chunk copied.out h.missing);
  complete = h.complete;
}

failed-Delivers : (whole : Bytes) → Delivers whole (record { out = []; ok = false })
failed-Delivers whole = record { missing = whole; parts = refl; complete = λ h. cc h }

whole-Delivers : (text : Bytes) → Delivers text (record { out = text; ok = true })
whole-Delivers text = record { missing = []; parts = sym (append-nil text); complete = λ h. refl }

module _ (reader : Reader) (bufsiz line_end n_elide : ℕ) (pos : 0 < bufsiz) where
  open reader use {Fd, rest, safe_read}

  failed :
      (fuel total : ℕ) (queue : Queue) (fd : Fd)
      → safe_read bufsiz fd ≡ none
      → elide_tail_lines_pipe bufsiz line_end n_elide reader (suc fuel) queue total fd
        ≡ some (record { out = []; ok = false })
  unfolding elide_tail_lines_pipe
  failed fuel total queue fd r = rw (elide_tail_lines_pipe, r) refl

  at_end :
      (fuel total : ℕ) (queue : Queue) (fd fd' : Fd) (out : Bytes)
      → safe_read bufsiz fd ≡ some ([], fd')
      → finish_lines bufsiz line_end n_elide queue total ≡ some out
      → elide_tail_lines_pipe bufsiz line_end n_elide reader (suc fuel) queue total fd
        ≡ some (record { out = out; ok = true })
  unfolding elide_tail_lines_pipe
  at_end fuel total queue fd fd' out r e = rw (elide_tail_lines_pipe, r, e) refl

  eliding :
      (fuel total c : ℕ) (queue : Queue) (fd fd' : Fd) (others : Bytes)
      → safe_read bufsiz fd ≡ some (c ∷ others, fd')
      → (n_elide == 0) ≡ false
      → elide_tail_lines_pipe bufsiz line_end n_elide reader (suc fuel) queue total fd
        ≡ wrote (add_buffer bufsiz line_end n_elide queue total (c ∷ others)).out (
            elide_tail_lines_pipe bufsiz line_end n_elide reader fuel
              (add_buffer bufsiz line_end n_elide queue total (c ∷ others)).queue
              (add_buffer bufsiz line_end n_elide queue total (c ∷ others)).total_lines
              fd')
  unfolding elide_tail_lines_pipe
  eliding fuel total c queue fd fd' others r e = rw (elide_tail_lines_pipe, r, e) refl

  copying :
      (fuel total c : ℕ) (queue : Queue) (fd fd' : Fd) (others : Bytes)
      → safe_read bufsiz fd ≡ some (c ∷ others, fd')
      → (n_elide == 0) ≡ true
      → elide_tail_lines_pipe bufsiz line_end n_elide reader (suc fuel) queue total fd
        ≡ wrote
            (c ∷ others)
            (elide_tail_lines_pipe bufsiz line_end n_elide reader fuel queue total fd')
  unfolding elide_tail_lines_pipe
  copying fuel total c queue fd fd' others r e = rw (elide_tail_lines_pipe, r, e) refl

  eliding_lem :
      (fuel total : ℕ) (front : List LBuffer) (last : LBuffer) (fd : Fd)
      → (n_elide == 0) ≡ false
      → IsCounted line_end front last total
      → length (rest fd) < fuel
      → (r : Copied) × (part : Bytes) × (elide_tail_lines_pipe bufsiz line_end n_elide reader fuel
            (record { front = front; last = last })
            total
            fd
          ≡ some r)
        × IsReadFrom reader fd part r.ok
        × Delivers (drop_last_lines line_end n_elide (bytes_of front ++ last.buffer ++ part)) r
  eliding_lem zero total front last fd some_lines h enough = absurd (omega arith)
  eliding_lem (suc fuel) total front last fd some_lines h enough =
      let queue : Queue = record { front = front; last = last } in
      elim (read_cases (safe_read bufsiz fd)) [
        | inl r ↦ (
          _,
          [],
          failed fuel total queue fd r,
          read_failed-IsReadFrom reader bufsiz fd r,
          failed-Delivers _,
        )
        | inr (inl (fd', r)) ↦
            let printed =
              finish_lines_lem bufsiz line_end n_elide front last total (ground (arith, some_lines))
                h in
            (
              _,
              [],
              at_end fuel total queue fd fd' _ r printed,
              read_end-IsReadFrom reader bufsiz fd fd' pos r,
              rw (append-nil (bytes_of front ++ last.buffer)) (whole-Delivers _),
            )
        | inr (inr (c, others, fd', r)) ↦
            let chunk : Bytes = c ∷ others in
            let added = add_buffer bufsiz line_end n_elide queue total chunk in
            let step =
              add_buffer_lem bufsiz line_end n_elide front last total chunk h (omega arith) in
            let (copied, part, ends, reads, printed) =
              eliding_lem fuel added.total_lines added.queue.front added.queue.last fd' some_lines
                step.counted (fewer_left reader bufsiz pos bufsiz fuel c others fd fd' r enough) in
            (
              record copied { out = added.out ++ copied.out },
              chunk ++ part,
              eliding fuel total c queue fd fd' others r some_lines
                  ∙ wrote_lem added.out _ copied ends,
              read-IsReadFrom reader bufsiz fd fd' chunk part copied.ok r reads,
              subst (λ (t : Bytes). Delivers t (record copied { out = added.out ++ copied.out }))
                  (sym (step.written part)) (wrote-Delivers added.out _ copied printed),
            )
      ]

  nothing_held : finish_lines bufsiz line_end 0 empty_queue 0 ≡ some []
  unfolding finish_lines
  nothing_held = refl

  copying_lem :
      (fuel : ℕ) (fd : Fd)
      → n_elide ≡ 0
      → length (rest fd) < fuel
      → (r : Copied) × (part : Bytes) × (elide_tail_lines_pipe bufsiz line_end n_elide reader fuel
            empty_queue 0 fd
          ≡ some r)
        × IsReadFrom reader fd part r.ok
        × Delivers part r
  copying_lem zero fd none_elided enough = absurd (omega arith)
  copying_lem (suc fuel) fd none_elided enough = elim (read_cases (safe_read bufsiz fd)) [
    | inl r ↦ (
      _,
      [],
      failed fuel 0 empty_queue fd r,
      read_failed-IsReadFrom reader bufsiz fd r,
      failed-Delivers [],
    )
    | inr (inl (fd', r)) ↦ (
      _,
      [],
      at_end fuel 0 empty_queue fd fd' [] r
          (ap (λ n. finish_lines bufsiz line_end n empty_queue 0) none_elided ∙ nothing_held),
      read_end-IsReadFrom reader bufsiz fd fd' pos r,
      whole-Delivers [],
    )
    | inr (inr (c, others, fd', r)) ↦
        let chunk : Bytes = c ∷ others in
        let (copied, part, ends, reads, delivers) =
          copying_lem fuel fd' none_elided
            (fewer_left reader bufsiz pos bufsiz fuel c others fd fd' r enough) in
        (
          record copied { out = chunk ++ copied.out },
          chunk ++ part,
          copying fuel 0 c empty_queue fd fd' others r (ground (arith, none_elided))
              ∙ wrote_lem chunk _ copied ends,
          read-IsReadFrom reader bufsiz fd fd' chunk part copied.ok r reads,
          wrote-Delivers chunk part copied delivers,
        )
  ]

  empty-IsCounted : IsCounted line_end [] (record { buffer = []; nlines = 0 }) 0
  empty-IsCounted = record {
    in_front = tt;
    in_last = unfold count_newlines in refl;
    in_all = omega arith;
    not_empty = inl refl;
  }

  -- With a round for each byte and one more elide_tail_lines_pipe ends, and it follows no null
  -- pointer. It writes all but the last n_elide lines of the file, where an incomplete last line
  -- counts. When it reports a failure a read has failed, and it has written a first part of all but
  -- the last n_elide lines of the part in front of that read.
  pub elide_tail_lines_pipe-drop_last_lines :
      (fd : Fd)
      → (r : Copied) × (part : Bytes) × (elide_tail_lines_pipe bufsiz line_end n_elide reader
            (suc (length (rest fd)))
            empty_queue
            0
            fd
          ≡ some r)
        × IsReadFrom reader fd part r.ok
        × Delivers (drop_last_lines line_end n_elide part) r
  elide_tail_lines_pipe-drop_last_lines fd = elim (Bool-cases (n_elide == 0)) [
    | inl e ↦
        let none_elided : n_elide ≡ 0 = ground (arith, e) in
        let (r, part, ends, reads, delivers) =
          copying_lem (suc (length (rest fd))) fd none_elided (omega arith) in
        let all : drop_last_lines line_end n_elide part ≡ part =
          ap (λ (n : ℕ). drop_last_lines line_end n part) none_elided
          ∙ first_lines-all line_end (count_lines line_end part - 0) part (omega arith) in
        (r, part, ends, reads, subst (λ (t : Bytes). Delivers t r) (sym all) delivers)
    | inr e ↦
        eliding_lem (suc (length (rest fd))) 0 [] (record { buffer = []; nlines = 0 }) fd e
          empty-IsCounted (omega arith)
  ]
