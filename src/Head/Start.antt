-- ===== src/Head/Start.antt =====
-- head_bytes, head_lines and copy_fd: the first bytes or lines of a file.
--
-- `bufsiz` is BUFSIZ of the C library. The loops take fuel, one round for each byte that is to come
-- and one more: a round that goes on has read a byte.
use lmcas.Base.{
  ℕ, zero, suc, ◌+◌, ◌-◌, Bool, true, false, not, ◌&&◌, List, [], ◌∷◌, ◌++◌, Option, none, some,
  Bytes, ltb, ◌==◌, if◌then◌else◌, length, take, min,
}
use lmcas.Head.Input.{Reader}
pub mod Laws
pub mod Ends
pub mod Copy

-- What a copy has written, and whether it went well.
pub record Copied : Type 0 where
  pub out : Bytes
  pub ok : Bool

-- `xwrite_stdout`, in front of what the rest of a loop writes.
unfoldable pub wrote : Bytes → Option Copied → Option Copied
wrote chunk none = none
wrote chunk (some copied) = some (record copied { out = chunk ++ copied.out })

-- The inner loop of head_lines: how many bytes of the buffer are written, and how many lines are
-- then still to write.
unfoldable pub scan_lines : ℕ → ℕ → Bytes → ℕ × ℕ
scan_lines line_end lines_to_write [] = (0, lines_to_write)
scan_lines line_end lines_to_write (c ∷ buffer) =
    let same = scan_lines line_end lines_to_write buffer in
    let fewer = scan_lines line_end (lines_to_write - 1) buffer in
    if c == line_end
    then (if lines_to_write - 1 == 0 then (1, 0) else (suc fewer.0, fewer.1))
    else (suc same.0, same.1)

pub data CopyFdStatus : Type 0 where
  copy_fd_ok copy_fd_read_error copy_fd_unexpected_eof : CopyFdStatus

module _ (reader : Reader) (bufsiz : ℕ) where
  open reader use {Fd, rest, safe_read}

  unfoldable pub head_bytes : ℕ → ℕ → ℕ → Fd → Option Copied
  unfolding wrote
  head_bytes zero bytes_to_read bytes_to_write fd = none
  head_bytes (suc fuel) bytes_to_read bytes_to_write fd = elim (bytes_to_write == 0) [
    | true ↦ some (record { out = []; ok = true })
    | false ↦
        let count = if ltb bytes_to_write bytes_to_read then bytes_to_write else bytes_to_read in
        elim (safe_read count fd) [
          | none ↦ some (record { out = []; ok = false })
          | some (buffer, fd') ↦ elim buffer [
            | [] ↦ some (record { out = []; ok = true })
            | c ∷ others ↦
                wrote (c ∷ others)
                  (head_bytes fuel count (bytes_to_write - length (c ∷ others)) fd')
          ]
        ]
  ]

  unfoldable pub head_lines : ℕ → ℕ → ℕ → Fd → Option Copied
  unfolding wrote scan_lines
  head_lines zero line_end lines_to_write fd = none
  head_lines (suc fuel) line_end lines_to_write fd = elim (lines_to_write == 0) [
    | true ↦ some (record { out = []; ok = true })
    | false ↦ elim (safe_read bufsiz fd) [
      | none ↦ some (record { out = []; ok = false })
      | some (buffer, fd') ↦ elim buffer [
        | [] ↦ some (record { out = []; ok = true })
        | c ∷ others ↦
            let scanned = scan_lines line_end lines_to_write (c ∷ others) in
            wrote (take scanned.0 (c ∷ others)) (head_lines fuel line_end scanned.1 fd')
      ]
    ]
  ]

  -- With the status, what is written.
  unfoldable pub copy_fd : ℕ → ℕ → Fd → Option (CopyFdStatus × Bytes)
  copy_fd zero n_bytes fd = none
  copy_fd (suc fuel) n_bytes fd = elim (n_bytes == 0) [
    | true ↦ some (CopyFdStatus.copy_fd_ok, [])
    | false ↦ elim (safe_read (min bufsiz n_bytes) fd) [
      | none ↦ some (CopyFdStatus.copy_fd_read_error, [])
      | some (buf, fd') ↦ elim buf [
        | [] ↦ some (CopyFdStatus.copy_fd_unexpected_eof, [])
        | c ∷ others ↦ elim (copy_fd fuel (n_bytes - length (c ∷ others)) fd') [
          | none ↦ none
          | some (status, out) ↦ some (status, (c ∷ others) ++ out)
        ]
      ]
    ]
  ]
