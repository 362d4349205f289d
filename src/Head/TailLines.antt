-- ===== src/Head/TailLines.antt =====
-- elide_tail_lines_pipe: all but the last lines of a file, over a queue of buffers.
--
-- The linked list from `first` to `last` is the list of the buffers in front of the last one, and
-- the last one. A null pointer that would be followed is the result none: in the loop over the
-- buffers behind the last one, and where memchr finds no further line end. The fuel is one round
-- for each byte that is to come and one more.
use lmcas.Base.{
  ℕ, zero, suc, ◌+◌, ◌-◌, Bool, true, false, not, ◌&&◌, List, [], ◌∷◌, ◌++◌, Option, none, some,
  Bytes, ltb, ◌==◌, if◌then◌else◌, length,
}
use lmcas.Head.Input.{Reader}
use lmcas.Head.Start.{Copied, wrote}
pub mod Lines
pub mod Finish
pub mod Laws
pub mod Whole

pub record LBuffer : Type 0 where
  pub buffer : Bytes
  pub nlines : ℕ

pub record Queue : Type 0 where
  pub front : List LBuffer
  pub last : LBuffer

-- The loop that counts the line ends of what was just read.
unfoldable pub count_newlines : ℕ → Bytes → ℕ
count_newlines line_end [] = 0
count_newlines line_end (c ∷ p) =
    let further = count_newlines line_end p in if c == line_end then suc further else further

-- What is written, the queue and the total number of lines behind a read.
pub record Added : Type 0 where
  pub out : Bytes
  pub queue : Queue
  pub total_lines : ℕ

-- `first`, and the queue behind it, of buffers in front of a last one.
abbrev pub first_of : List LBuffer → LBuffer → LBuffer
first_of [] last = last
first_of (b ∷ front) last = b

abbrev pub behind_first : List LBuffer → List LBuffer
behind_first [] = []
behind_first (b ∷ front) = front

-- The last line has no line end.
unfoldable pub is_incomplete : ℕ → Bytes → Bool
is_incomplete line_end [] = false
is_incomplete line_end (c ∷ []) = not (c == line_end)
is_incomplete line_end (c ∷ d ∷ text) = is_incomplete line_end (d ∷ text)

-- The first lines of the buffer, as the loop over memchr finds their end.
unfoldable pub lines_of_buffer : ℕ → ℕ → Bytes → Option Bytes
lines_of_buffer line_end zero buffer = some []
lines_of_buffer line_end (suc n) [] = none
lines_of_buffer line_end (suc n) (c ∷ p) =
    let at_end = lines_of_buffer line_end n p in
    let further = lines_of_buffer line_end (suc n) p in
    if c == line_end
    then elim at_end [ none ↦ none | some out ↦ some (c ∷ out) ]
    else elim further [ none ↦ none | some out ↦ some (c ∷ out) ]

module _ (bufsiz line_end n_elide : ℕ) where
  -- The new buffer is linked behind the last one; the first one is written if enough lines stay.
  unfoldable pub link_buffer : Queue → ℕ → LBuffer → Added
  link_buffer queue total_lines tmp =
      let front = queue.front ++ queue.last ∷ [] in
      let first = first_of front tmp in
      if ltb n_elide (total_lines - first.nlines)
      then record {
        out = first.buffer;
        queue = record { front = behind_first front; last = tmp };
        total_lines = total_lines - first.nlines;
      }
      else record {
        out = [];
        queue = record { front = front; last = tmp };
        total_lines = total_lines;
      }

  -- A round of the first loop behind the read, when lines are to be elided.
  unfoldable pub add_buffer : Queue → ℕ → Bytes → Added
  unfolding count_newlines link_buffer
  add_buffer queue total_lines chunk =
      let nlines = count_newlines line_end chunk in
      if ltb (length chunk + length queue.last.buffer) bufsiz
      then record {
        out = [];
        queue = record queue {
          last = record {
            buffer = queue.last.buffer ++ chunk;
            nlines = queue.last.nlines + nlines;
          };
        };
        total_lines = total_lines + nlines;
      }
      else link_buffer queue (total_lines + nlines) (record { buffer = chunk; nlines = nlines })

  -- The loop over the buffers from `first` on, and the lines of the one where it stops.
  unfoldable pub print_buffers : ℕ → List LBuffer → Option Bytes
  unfolding lines_of_buffer
  print_buffers total_lines [] = none
  print_buffers total_lines (tmp ∷ next) =
      let further = print_buffers (total_lines - tmp.nlines) next in
      if ltb n_elide (total_lines - tmp.nlines)
      then elim further [ none ↦ none | some out ↦ some (tmp.buffer ++ out) ]
      else if ltb n_elide total_lines
      then lines_of_buffer line_end (total_lines - n_elide) tmp.buffer
      else some []

  -- Behind the end of the file.
  unfoldable pub finish_lines : Queue → ℕ → Option Bytes
  unfolding is_incomplete print_buffers
  finish_lines queue total_lines =
      if is_incomplete line_end queue.last.buffer
      then print_buffers (suc total_lines)
          (queue.front ++ record queue.last { nlines = suc queue.last.nlines } ∷ [])
      else print_buffers total_lines (queue.front ++ queue.last ∷ [])

  module _ (reader : Reader) where
    open reader use {Fd, safe_read}

    unfoldable pub elide_tail_lines_pipe : ℕ → Queue → ℕ → Fd → Option Copied
    elide_tail_lines_pipe zero queue total_lines fd = none
    elide_tail_lines_pipe (suc fuel) queue total_lines fd = elim (safe_read bufsiz fd) [
      | none ↦ some (record { out = []; ok = false })
      | some (tmp, fd') ↦ elim tmp [
        | [] ↦ elim (finish_lines queue total_lines) [
          | none ↦ none
          | some out ↦ some (record { out = out; ok = true })
        ]
        | c ∷ others ↦
            let added = add_buffer queue total_lines (c ∷ others) in
            elim (n_elide == 0) [
              | true ↦ wrote (c ∷ others) (elide_tail_lines_pipe fuel queue total_lines fd')
              | false ↦
                  wrote added.out (elide_tail_lines_pipe fuel added.queue added.total_lines fd')
            ]
      ]
    ]

-- The queue that the loop starts with.
abbrev pub empty_queue : Queue
empty_queue = record { front = []; last = record { buffer = []; nlines = 0 } }
