-- ===== src/Head/TailBytes/Laws.antt =====
-- All but the last bytes are written.
use lmcas.Base.{
  ℕ, zero, suc, ◌+◌, ◌-◌, ◌≤◌, ◌<◌, true, false, [], ◌∷◌, ◌++◌, Option, none, some, Bytes, ltb, leb,
  if◌then◌else◌, length, length-append, take, drop, take_all, length-drop, take-append-drop, ◌≡◌,
  refl, sym, ap, ◌∙◌, arith, Bool-cases, inl, inr, append_assoc, append-nil, lt→ltb,
}
use lmcas.Head.Input.{FullReader}
use lmcas.Head.Start.{Copied, wrote}
use lmcas.Head.Start.Laws.{take-append, take_nothing}
use lmcas.Head.Reads.{
  IsFullyReadFrom, FullFailsBehind, nothing-IsRead, all-IsRead, full_read-IsFullyReadFrom,
  wrote_lem,
}
use lmcas.Head.TailBytes.{write_previous, delta_of, elide_tail_bytes_pipe}

-- All but the last `n` bytes.
abbrev pub drop_last : ℕ → Bytes → Bytes
drop_last n text = take (length text - n) text

-- What was elided so far, which may yet be written.
unfoldable pub pending : ℕ → Option Bytes → Bytes
pending read_bufsize none = []
pending read_bufsize (some b) = drop read_bufsize b

-- The previous buffer, if there is one, is full.
abbrev IsFull : ℕ → Option Bytes → Type 0
IsFull n none = Unit {0}
IsFull n (some b) = length b ≡ n

take_short : (n : ℕ) (xs ys : Bytes) → n ≤ length xs → take n (xs ++ ys) ≡ take n xs
take_short zero xs ys h = refl
take_short (suc n) [] ys h = absurd (omega arith)
take_short (suc n) (x ∷ xs) ys h = ap (λ (l : Bytes). x ∷ l) (take_short n xs ys (omega arith))

drop_last-append :
    (n : ℕ) (xs ys : Bytes) → n ≤ length ys → drop_last n (xs ++ ys) ≡ xs ++ drop_last n ys
drop_last-append n xs ys h =
    let fits : length xs ≤ length (xs ++ ys) - n = omega (arith, length-append xs ys) in
    let count : length (xs ++ ys) - n - length xs ≡ length ys - n =
      omega (arith, length-append xs ys) in
    take-append (length (xs ++ ys) - n) xs ys fits ∙ ap (λ (k : ℕ). xs ++ take k ys) count

-- What a full buffer and what is to come write: the buffer's start, and all of the end of it that
-- is not elided.
full_buffer :
    (size n : ℕ) (b others : Bytes)
    → 0 < size
    → length b ≡ size + n
    → drop_last n (b ++ others)
      ≡ (if ltb n (length b) then take (length b - n) b else [])
        ++ drop_last n (drop size b ++ others)
full_buffer size n b others pos l =
    let longer : ltb n (length b) ≡ true = lt→ltb n (length b) (omega (arith, l, pos)) in
    let start : length b - n ≡ size = omega (arith, l) in
    let left : length (drop size b) ≡ n = length-drop size b ∙ omega (arith, l) in
    rw (longer, start)
      (ap (λ (t : Bytes). drop_last n (t ++ others)) (sym (take-append-drop size b))
        ∙ ap (drop_last n) (append_assoc (take size b) (drop size b) others)
        ∙ drop_last-append n (take size b) (drop size b ++ others)
            (omega (arith, length-append (drop size b) others, left)))

-- What was elided is written when at least as many bytes follow.
previous_written :
    (size n : ℕ) (previous : Option Bytes) (others : Bytes)
    → IsFull (size + n) previous
    → n ≤ length others
    → drop_last n (pending size previous ++ others)
      ≡ write_previous size n 0 previous ++ drop_last n others
unfolding pending write_previous
previous_written size n none others full h = refl
previous_written size n (some b) others full h =
    let left : length (drop size b) ≡ n = length-drop size b ∙ omega (arith, full) in
    drop_last-append n (drop size b) others h
    ∙ ap (λ (l : Bytes). l ++ drop_last n others)
        (sym (take_all (n - 0) (drop size b) (omega (arith, left))))

full_round :
    (size n : ℕ) (previous : Option Bytes) (b others : Bytes)
    → 0 < size
    → IsFull (size + n) previous
    → length b ≡ size + n
    → drop_last n (pending size previous ++ (b ++ others))
      ≡ (write_previous size n 0 previous
          ++ (if ltb n (length b) then take (length b - n) b else []))
        ++ drop_last n (pending size (some b) ++ others)
unfolding pending
full_round size n previous b others pos full l =
    previous_written size n previous (b ++ others) full (omega (arith, length-append b others, l))
    ∙ ap (λ (t : Bytes). write_previous size n 0 previous ++ t) (full_buffer size n b others pos l)
    ∙ sym (
        append_assoc (write_previous size n 0 previous)
          (if ltb n (length b) then take (length b - n) b else []) _)

last_round :
    (size n : ℕ) (previous : Option Bytes) (b : Bytes)
    → IsFull (size + n) previous
    → drop_last n (pending size previous ++ b)
      ≡ write_previous size n (delta_of n (length b) previous) previous
        ++ (if ltb n (length b) then take (length b - n) b else [])
unfolding pending write_previous delta_of
last_round size n none b full = elim (Bool-cases (ltb n (length b))) [
  | inl more ↦ rw more refl
  | inr less ↦ let nothing : length b - n ≡ 0 = ground (arith, less) in rw (less, nothing) refl
]
last_round size n (some p) b full =
    let left : length (drop size p) ≡ n = length-drop size p ∙ omega (arith, full) in
    elim (Bool-cases (leb (length b) n)) [
      | inl few ↦
          let short : ltb n (length b) ≡ false = ground (arith, few) in
          let same : length (drop size p ++ b) - n ≡ n - (n - length b) =
            ground (arith, few, length-append (drop size p) b, left) in
          rw (few, short)
            (ap (λ k. take k (drop size p ++ b)) same
              ∙ take_short (n - (n - length b)) (drop size p) b (omega (arith, left))
              ∙ sym (append-nil (take (n - (n - length b)) (drop size p))))
      | inr many ↦
          let long : ltb n (length b) ≡ true = ground (arith, many) in
          rw (many, long)
            (drop_last-append n (drop size p) b (ground (arith, many))
              ∙ ap (λ (l : Bytes). l ++ drop_last n b)
                  (sym (take_all (n - 0) (drop size p) (omega (arith, left)))))
    ]

-- Of what was elided nothing is written yet.
nothing_due :
    (size n : ℕ) (previous : Option Bytes)
    → IsFull (size + n) previous
    → drop_last n (pending size previous ++ []) ≡ []
unfolding pending
nothing_due size n none full = take_nothing (0 - n)
nothing_due size n (some b) full =
    let none_over : length (drop size b ++ []) - n ≡ 0 =
      omega (arith, length-append (drop size b) [], length-drop size b, full) in
    rw none_over refl

module _ (reader : FullReader) (size n : ℕ) (pos : 0 < size) where
  open reader use {Fd, rest, full_read}

  -- The buffer that a read fills.
  abbrev buffer : Fd → Bytes
  buffer fd = (full_read (size + n) fd).0.0

  -- What is written of the buffer at once.
  abbrev new_part : Bytes → Bytes
  new_part b = if ltb n (length b) then take (length b - n) b else []

  read_failed :
      (fuel : ℕ) (previous : Option Bytes) (fd : Fd)
      → ltb (length (buffer fd)) (size + n) ≡ true
      → (full_read (size + n) fd).0.1 ≡ true
      → elide_tail_bytes_pipe reader size n (suc fuel) previous fd
        ≡ some (record { out = []; ok = false })
  unfolding elide_tail_bytes_pipe
  read_failed fuel previous fd e f = rw (elide_tail_bytes_pipe, e, f) refl

  read_last :
      (fuel : ℕ) (previous : Option Bytes) (fd : Fd)
      → ltb (length (buffer fd)) (size + n) ≡ true
      → (full_read (size + n) fd).0.1 ≡ false
      → elide_tail_bytes_pipe reader size n (suc fuel) previous fd
        ≡ some (record {
          out =
              write_previous size n (delta_of n (length (buffer fd)) previous) previous
              ++ new_part (buffer fd);
          ok = true;
        })
  unfolding elide_tail_bytes_pipe
  read_last fuel previous fd e f = rw (elide_tail_bytes_pipe, e, f) refl

  read_full :
      (fuel : ℕ) (previous : Option Bytes) (fd : Fd)
      → ltb (length (buffer fd)) (size + n) ≡ false
      → elide_tail_bytes_pipe reader size n (suc fuel) previous fd
        ≡ wrote (write_previous size n 0 previous ++ new_part (buffer fd)) (
            elide_tail_bytes_pipe reader size n fuel
              (some (buffer fd))
              ((full_read (size + n) fd).1))
  unfolding elide_tail_bytes_pipe
  read_full fuel previous fd e = rw (elide_tail_bytes_pipe, e) refl

  pub elide_tail_bytes_pipe_lem :
      (fuel : ℕ) (previous : Option Bytes) (fd : Fd)
      → IsFull (size + n) previous
      → length (rest fd) < fuel
      → (r : Copied) × (part : Bytes) × (elide_tail_bytes_pipe reader size n fuel previous fd
          ≡ some r)
        × IsFullyReadFrom reader fd part r.ok
        × (r.out ≡ drop_last n (pending size previous ++ part))
  elide_tail_bytes_pipe_lem zero previous fd full enough = absurd (omega arith)
  elide_tail_bytes_pipe_lem (suc fuel) previous fd full enough =
      let b = buffer fd in
      let fd' = (full_read (size + n) fd).1 in
      let all = reader.gives_next (size + n) fd in
      elim (Bool-cases (ltb (length b) (size + n))) [
        | inl e ↦ elim (Bool-cases ((full_read (size + n) fd).0.1)) [
          | inl f ↦ (
            _,
            [],
            read_failed fuel previous fd e f,
            nothing-IsRead (rest fd) (FullFailsBehind.now (size + n) (ground (arith, e)) f),
            sym (nothing_due size n previous full),
          )
          | inr f ↦
              let end : rest fd' ≡ [] = reader.fewer_at_end (size + n) fd (ground (arith, e)) f in
              let whole : rest fd ≡ b = all ∙ ap (λ (t : Bytes). b ++ t) end ∙ append-nil b in
              (
                _,
                b,
                read_last fuel previous fd e f,
                all-IsRead (rest fd) b whole,
                sym (last_round size n previous b full),
              )
        ]
        | inr e ↦
            let filled : length b ≡ size + n =
              ground (arith, e, reader.at_most_count (size + n) fd) in
            let less : length (rest fd') < fuel =
              omega (arith, ap length all, length-append b (rest fd'), filled, pos, enough) in
            let at_once = write_previous size n 0 previous ++ new_part b in
            let (r, part, ends, h, o) = elide_tail_bytes_pipe_lem fuel (some b) fd' filled less in
            (
              record r { out = at_once ++ r.out },
              b ++ part,
              read_full fuel previous fd e ∙ wrote_lem at_once _ r ends,
              full_read-IsFullyReadFrom reader (size + n) fd part r.ok filled h,
              ap (λ (t : Bytes). at_once ++ t) o
                  ∙ sym (full_round size n previous b part pos full filled),
            )
      ]

-- With a round for each byte and one more elide_tail_bytes_pipe ends. It writes all but the last
-- n_elide bytes of the file, or, when it reports a failure, of the part in front of a read that
-- gave fewer bytes than were asked for with an errno that is not 0.
pub elide_tail_bytes_pipe-drop_last :
    (reader : FullReader) (read_bufsize n_elide : ℕ) (fd : reader.Fd)
    → 0 < read_bufsize
    → (r : Copied) × (part : Bytes) × (elide_tail_bytes_pipe reader read_bufsize n_elide
          (suc (length (reader.rest fd)))
          none
          fd
        ≡ some r)
      × IsFullyReadFrom reader fd part r.ok
      × (r.out ≡ drop_last n_elide part)
unfolding pending
elide_tail_bytes_pipe-drop_last reader read_bufsize n_elide fd pos =
    elide_tail_bytes_pipe_lem reader read_bufsize n_elide pos (suc (length (reader.rest fd))) none
      fd tt (omega arith)
