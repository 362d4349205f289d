-- ===== src/Head/TailLines/Laws.antt =====
-- A round of the first loop keeps what is yet to be printed.
use lmcas.Base.{
  ℕ, suc, ◌+◌, ◌-◌, ◌<◌, true, false, List, [], ◌∷◌, ◌++◌, Bytes, ltb, length, length-append, ◌≡◌,
  refl, sym, ap, subst, ◌∙◌, arith, Bool-cases, inl, inr, append_assoc, append-nil,
}
use lmcas.Head.Start.Laws.{first_lines}
use lmcas.Head.TailLines.{LBuffer, Added, count_newlines, link_buffer, add_buffer}
use lmcas.Head.TailLines.Lines.{
  count_newlines-append, count_lines, is_incomplete-append, first_lines-append,
}
use lmcas.Head.TailLines.Finish.{
  bytes_of, bytes_of-append, lines_in, lines_in-count_newlines, AllCounted, drop_last_lines,
  IsCounted,
}

-- A first part is written when enough lines follow it.
drop_last_lines-append :
    (line_end n : ℕ) (xs ys : Bytes)
    → 0 < length ys
    → n < count_newlines line_end ys
    → drop_last_lines line_end n (xs ++ ys) ≡ xs ++ drop_last_lines line_end n ys
drop_last_lines-append line_end n xs ys h more =
    let j = count_lines line_end ys - n - 1 in
    let behind : count_lines line_end ys - n ≡ suc j = ground (arith, more) in
    let all : count_lines line_end (xs ++ ys) - n ≡ count_newlines line_end xs + suc j =
      rw (is_incomplete-append line_end xs ys h)
        (ground (arith, more, count_newlines-append line_end xs ys)) in
    ap (λ k. first_lines line_end k (xs ++ ys)) all
    ∙ first_lines-append line_end j xs ys
    ∙ ap (λ k. xs ++ first_lines line_end k ys) (sym behind)

AllCounted-append :
    (line_end : ℕ) (front : List LBuffer) (last : LBuffer)
    → AllCounted line_end front
    → last.nlines ≡ count_newlines line_end last.buffer
    → AllCounted line_end (front ++ last ∷ [])
AllCounted-append line_end [] last h e = (e, tt)
AllCounted-append line_end (b ∷ front) last (at, h) e =
    (at, AllCounted-append line_end front last h e)

lines_in-append :
    (front : List LBuffer) (last : LBuffer)
    → lines_in (front ++ last ∷ []) ≡ lines_in front + last.nlines
lines_in-append [] last = omega arith
lines_in-append (b ∷ front) last = omega (arith, lines_in-append front last)

-- The first buffer of a queue in front of a new one.
first_cases :
    (front : List LBuffer) (last : LBuffer)
    → (b : LBuffer) × (next : List LBuffer) × (front ++ last ∷ [] ≡ b ∷ next)
first_cases [] last = (last, [], refl)
first_cases (b ∷ front) last = (b, front ++ last ∷ [], refl)

module _ (bufsiz line_end n_elide : ℕ) where
  -- What a round makes of a queue that holds a text when a chunk follows it.
  pub record IsAdded (text chunk : Bytes) (added : Added) : Type 0 where
    pub counted : IsCounted line_end added.queue.front added.queue.last added.total_lines
    pub written :
        (others : Bytes)
        → drop_last_lines line_end n_elide (text ++ (chunk ++ others))
          ≡ added.out
            ++ drop_last_lines line_end n_elide
                (bytes_of added.queue.front ++ added.queue.last.buffer ++ others)

  first_written :
      (front next : List LBuffer) (last b tmp : LBuffer) (total : ℕ)
      → front ++ last ∷ [] ≡ b ∷ next
      → ltb n_elide (total - b.nlines) ≡ true
      → link_buffer bufsiz line_end n_elide (record { front = front; last = last }) total tmp
        ≡ record {
          out = b.buffer;
          queue = record { front = next; last = tmp };
          total_lines = total - b.nlines;
        }
  unfolding link_buffer
  first_written front next last b tmp total e f = rw (e, f) refl

  first_kept :
      (front next : List LBuffer) (last b tmp : LBuffer) (total : ℕ)
      → front ++ last ∷ [] ≡ b ∷ next
      → ltb n_elide (total - b.nlines) ≡ false
      → link_buffer bufsiz line_end n_elide (record { front = front; last = last }) total tmp
        ≡ record { out = []; queue = record { front = b ∷ next; last = tmp }; total_lines = total }
  unfolding link_buffer
  first_kept front next last b tmp total e f = rw (e, f) refl

  link_buffer_lem :
      (front : List LBuffer) (last tmp : LBuffer) (total : ℕ)
      → IsCounted line_end front last total
      → tmp.nlines ≡ count_newlines line_end tmp.buffer
      → 0 < length tmp.buffer
      → IsAdded (bytes_of front ++ last.buffer) tmp.buffer (
          link_buffer bufsiz line_end n_elide
            (record { front = front; last = last })
            (total + tmp.nlines)
            tmp)
  link_buffer_lem front last tmp total h at room =
      let (b, next, e) = first_cases front last in
      let (b_at, nexts) =
        subst (AllCounted line_end) e
          (AllCounted-append line_end front last h.in_front h.in_last) in
      let sum : b.nlines + lines_in next ≡ total =
        sym (ap lines_in e) ∙ lines_in-append front last ∙ sym h.in_all in
      let text : bytes_of front ++ last.buffer ≡ b.buffer ++ bytes_of next =
        ap (λ (t : Bytes). bytes_of front ++ t) (sym (append-nil last.buffer))
        ∙ sym (bytes_of-append front (last ∷ []))
        ∙ ap bytes_of e in
      elim (Bool-cases (ltb n_elide (total + tmp.nlines - b.nlines))) [
        | inl more ↦
            rw (first_written front next last b tmp (total + tmp.nlines) e more, text)
              (record {
                counted = record {
                  in_front = nexts;
                  in_last = at;
                  in_all = omega (arith, sum);
                  not_empty = inr room;
                };
                written = λ others.
                    ap (drop_last_lines line_end n_elide)
                      (append_assoc b.buffer (bytes_of next) (tmp.buffer ++ others))
                    ∙ drop_last_lines-append line_end n_elide b.buffer
                        (bytes_of next ++ (tmp.buffer ++ others))
                        (omega (
                          arith,
                          room,
                          length-append (bytes_of next) (tmp.buffer ++ others),
                          length-append tmp.buffer others,
                        ))
                        (ground (
                          arith,
                          more,
                          sum,
                          at,
                          lines_in-count_newlines line_end next nexts,
                          count_newlines-append line_end (bytes_of next) (tmp.buffer ++ others),
                          count_newlines-append line_end tmp.buffer others,
                        ))
                    ∙ ap (λ (t : Bytes). b.buffer ++ drop_last_lines line_end n_elide t)
                        (sym (append_assoc (bytes_of next) tmp.buffer others));
              })
        | inr stop ↦
            rw (first_kept front next last b tmp (total + tmp.nlines) e stop, text)
              (record {
                counted = record {
                  in_front = (b_at, nexts);
                  in_last = at;
                  in_all = omega (arith, sum);
                  not_empty = inr room;
                };
                written = λ others.
                    ap (drop_last_lines line_end n_elide)
                      (sym (append_assoc (b.buffer ++ bytes_of next) tmp.buffer others));
              })
      ]

  merged :
      (front : List LBuffer) (last : LBuffer) (total : ℕ) (chunk : Bytes)
      → ltb (length chunk + length last.buffer) bufsiz ≡ true
      → add_buffer bufsiz line_end n_elide (record { front = front; last = last }) total chunk
        ≡ record {
          out = [];
          queue = record {
            front = front;
            last = record {
              buffer = last.buffer ++ chunk;
              nlines = last.nlines + count_newlines line_end chunk;
            };
          };
          total_lines = total + count_newlines line_end chunk;
        }
  unfolding add_buffer
  merged front last total chunk e = rw e refl

  linked :
      (front : List LBuffer) (last : LBuffer) (total : ℕ) (chunk : Bytes)
      → ltb (length chunk + length last.buffer) bufsiz ≡ false
      → add_buffer bufsiz line_end n_elide (record { front = front; last = last }) total chunk
        ≡ link_buffer bufsiz line_end n_elide
            (record { front = front; last = last })
            (total + count_newlines line_end chunk)
            (record { buffer = chunk; nlines = count_newlines line_end chunk })
  unfolding add_buffer
  linked front last total chunk e = rw e refl

  pub add_buffer_lem :
      (front : List LBuffer) (last : LBuffer) (total : ℕ) (chunk : Bytes)
      → IsCounted line_end front last total
      → 0 < length chunk
      → IsAdded
          (bytes_of front ++ last.buffer)
          chunk
          (add_buffer bufsiz line_end n_elide (record { front = front; last = last }) total chunk)
  add_buffer_lem front last total chunk h room =
      elim (Bool-cases (ltb (length chunk + length last.buffer) bufsiz)) [
        | inl e ↦ rw (merged front last total chunk e) (record {
          counted = record {
            in_front = h.in_front;
            in_last = omega (arith, h.in_last, count_newlines-append line_end last.buffer chunk);
            in_all = omega (arith, h.in_all);
            not_empty = inr (omega (arith, room, length-append last.buffer chunk));
          };
          written = λ others. ap (drop_last_lines line_end n_elide) (
              sym (append_assoc (bytes_of front ++ last.buffer) chunk others)
              ∙ ap (λ (t : Bytes). t ++ others) (append_assoc (bytes_of front) last.buffer chunk));
        })
        | inr e ↦ rw (linked front last total chunk e) (
            link_buffer_lem front last
              (record { buffer = chunk; nlines = count_newlines line_end chunk }) total h refl room)
      ]
