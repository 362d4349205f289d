-- ===== src/Head/Input.antt =====
-- What head and wc take of gnulib's reads: a file is a state from which bytes are still to come.
use lmcas.Base.{ℕ, ◌≤◌, ◌<◌, Bool, false, [], ◌++◌, Option, some, Bytes, length, ◌≡◌}

-- safe_read: none is SAFE_READ_ERROR. A read gives the next bytes, at most as many as were asked
-- for, and none of them only at the end of the file or when none was asked for.
pub record Reader : Type 1 where
  pub Fd : Type 0
  pub rest : Fd → Bytes
  pub safe_read : ℕ → Fd → Option (Bytes × Fd)
  pub gives_next :
      (count : ℕ) (fd fd' : Fd) (chunk : Bytes)
      → safe_read count fd ≡ some (chunk, fd')
      → rest fd ≡ chunk ++ rest fd'
  pub at_most_count :
      (count : ℕ) (fd fd' : Fd) (chunk : Bytes)
      → safe_read count fd ≡ some (chunk, fd')
      → length chunk ≤ count
  pub nothing_at_end :
      (count : ℕ) (fd fd' : Fd) → 0 < count → safe_read count fd ≡ some ([], fd') → rest fd ≡ []

-- full_read: with it, whether errno is not 0. It gives the next bytes, as many as were asked for,
-- and fewer only at the end of the file or on an error.
pub record FullReader : Type 1 where
  pub Fd : Type 0
  pub rest : Fd → Bytes
  pub full_read : ℕ → Fd → (Bytes × Bool) × Fd
  pub gives_next :
      (count : ℕ) (fd : Fd) → rest fd ≡ (full_read count fd).0.0 ++ rest (full_read count fd).1
  pub at_most_count : (count : ℕ) (fd : Fd) → length (full_read count fd).0.0 ≤ count
  pub fewer_at_end :
      (count : ℕ) (fd : Fd)
      → length (full_read count fd).0.0 < count
      → (full_read count fd).0.1 ≡ false
      → rest (full_read count fd).1 ≡ []
