-- ===== src/Head/TailBytes.antt =====
-- elide_tail_bytes_pipe with two buffers, as for at most HEAD_TAIL_PIPE_BYTECOUNT_THRESHOLD bytes:
-- all but the last bytes of a file.
--
-- `read_bufsize` is READ_BUFSIZE. `previous` is the buffer b[!i], none in the first round; the
-- fuel is one round for each byte that is to come and one more.
use lmcas.Base.{
  ℕ, zero, suc, ◌+◌, ◌-◌, Bool, true, false, not, ◌&&◌, List, [], ◌∷◌, ◌++◌, Option, none, some,
  Bytes, ltb, leb, ◌==◌, if◌then◌else◌, length, take, drop,
}
use lmcas.Head.Input.{FullReader}
use lmcas.Head.Start.{Copied, wrote}
pub mod Laws

-- The elided bytes of the previous round that are written after all: all but `delta`.
unfoldable pub write_previous : ℕ → ℕ → ℕ → Option Bytes → Bytes
write_previous read_bufsize n_elide delta none = []
write_previous read_bufsize n_elide delta (some b) = take (n_elide - delta) (drop read_bufsize b)

-- `delta` is not 0 only in the last round, when it is not the first one and read little.
unfoldable pub delta_of : ℕ → ℕ → Option Bytes → ℕ
delta_of n_elide n_read none = 0
delta_of n_elide n_read (some b) = if leb n_read n_elide then n_elide - n_read else 0

module _ (reader : FullReader) (read_bufsize n_elide : ℕ) where
  open reader use {Fd, full_read}

  unfoldable pub elide_tail_bytes_pipe : ℕ → Option Bytes → Fd → Option Copied
  unfolding wrote write_previous delta_of
  elide_tail_bytes_pipe zero previous fd = none
  elide_tail_bytes_pipe (suc fuel) previous fd =
      let n_to_read = read_bufsize + n_elide in
      let b = (full_read n_to_read fd).0.0 in
      let failed = (full_read n_to_read fd).0.1 in
      let fd' = (full_read n_to_read fd).1 in
      let new = if ltb n_elide (length b) then take (length b - n_elide) b else [] in
      elim (ltb (length b) n_to_read) [
        | true ↦
            if failed
            then some (record { out = []; ok = false })
            else some (record {
              out =
                  write_previous read_bufsize n_elide (delta_of n_elide (length b) previous)
                    previous
                  ++ new;
              ok = true;
            })
        | false ↦
            wrote (write_previous read_bufsize n_elide 0 previous ++ new)
              (elide_tail_bytes_pipe fuel (some b) fd')
      ]
