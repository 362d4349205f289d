-- ===== src/Head/Start/Copy.antt =====
-- copy_fd: its status says how the copy ended.
use lmcas.Base.{
  ℕ, zero, suc, ◌-◌, ◌≤◌, ◌<◌, false, [], ◌∷◌, ◌++◌, none, some, Bytes, ◌==◌, length, length-append,
  min, ◌≡◌, refl, sym, ap, ◌∙◌, arith, Bool-cases, inl, inr, append_assoc,
}
use lmcas.Head.Input.{Reader}
use lmcas.Head.Reads.{FailsBehind}
use lmcas.Head.Start.{CopyFdStatus, copy_fd}
use lmcas.Head.Start.Laws.{read_cases, fewer_left}

-- What a copy of `n` bytes of a text wrote: all of them; all of a text that is too short; or fewer,
-- and Failed says why.
pub data CopyOutcome (n : ℕ) (text out : Bytes) (Failed : Type 0) : CopyFdStatus → Type 0 where
  copied :
      (others : Bytes)
      → text ≡ out ++ others
      → length out ≡ n
      → CopyOutcome n text out Failed CopyFdStatus.copy_fd_ok
  too_short :
      text ≡ out
      → length out < n
      → CopyOutcome n text out Failed CopyFdStatus.copy_fd_unexpected_eof
  failed :
      (others : Bytes)
      → text ≡ out ++ others
      → length out < n
      → Failed
      → CopyOutcome n text out Failed CopyFdStatus.copy_fd_read_error

CopyOutcome-append :
    {Failed Failed' : Type 0} (n : ℕ) (chunk text out : Bytes) (status : CopyFdStatus)
    → length chunk ≤ n
    → (Failed → Failed')
    → CopyOutcome (n - length chunk) text out Failed status
    → CopyOutcome n (chunk ++ text) (chunk ++ out) Failed' status
CopyOutcome-append n chunk text out status h later (CopyOutcome.copied others e l) =
    CopyOutcome.copied others
      (ap (λ (t : Bytes). chunk ++ t) e ∙ sym (append_assoc chunk out others))
      (omega (arith, length-append chunk out, l, h))
CopyOutcome-append n chunk text out status h later (CopyOutcome.too_short e l) =
    CopyOutcome.too_short (ap (λ (t : Bytes). chunk ++ t) e)
      (omega (arith, length-append chunk out, l, h))
CopyOutcome-append n chunk text out status h later (CopyOutcome.failed others e l f) =
    CopyOutcome.failed others
      (ap (λ (t : Bytes). chunk ++ t) e ∙ sym (append_assoc chunk out others))
      (omega (arith, length-append chunk out, l, h)) (later f)

module _ (reader : Reader) (bufsiz : ℕ) (pos : 0 < bufsiz) where
  open reader use {Fd, rest, safe_read}

  nothing_asked :
      (fuel : ℕ) (fd : Fd)
      → copy_fd reader bufsiz (suc fuel) 0 fd ≡ some (CopyFdStatus.copy_fd_ok, [])
  unfolding copy_fd
  nothing_asked fuel fd = refl

  read_failed :
      (fuel n : ℕ) (fd : Fd)
      → (n == 0) ≡ false
      → safe_read (min bufsiz n) fd ≡ none
      → copy_fd reader bufsiz (suc fuel) n fd ≡ some (CopyFdStatus.copy_fd_read_error, [])
  unfolding copy_fd
  read_failed fuel n fd e r = rw (e, copy_fd, r) refl

  at_end :
      (fuel n : ℕ) (fd fd' : Fd)
      → (n == 0) ≡ false
      → safe_read (min bufsiz n) fd ≡ some ([], fd')
      → copy_fd reader bufsiz (suc fuel) n fd ≡ some (CopyFdStatus.copy_fd_unexpected_eof, [])
  unfolding copy_fd
  at_end fuel n fd fd' e r = rw (e, copy_fd, r) refl

  read_some :
      (fuel n c : ℕ) (others out : Bytes) (status : CopyFdStatus) (fd fd' : Fd)
      → (n == 0) ≡ false
      → safe_read (min bufsiz n) fd ≡ some (c ∷ others, fd')
      → copy_fd reader bufsiz fuel (n - length (c ∷ others)) fd' ≡ some (status, out)
      → copy_fd reader bufsiz (suc fuel) n fd ≡ some (status, (c ∷ others) ++ out)
  unfolding copy_fd
  read_some fuel n c others out status fd fd' e r s = rw (e, copy_fd, r, s) refl

  -- With a round for each byte and one more copy_fd ends. It reports success exactly when it wrote
  -- the first n bytes; an unexpected end of file when it wrote a file of fewer bytes; and an error
  -- when a read failed behind the fewer than n bytes of the file that it wrote.
  pub copy_fd_lem :
      (fuel n : ℕ) (fd : Fd)
      → length (rest fd) < fuel
      → (status : CopyFdStatus) × (out : Bytes) × (copy_fd reader bufsiz fuel n fd
          ≡ some (status, out))
        × CopyOutcome n (rest fd) out (FailsBehind reader fd out) status
  copy_fd_lem zero n fd enough = absurd (omega arith)
  copy_fd_lem (suc fuel) n fd enough = elim (Bool-cases (n == 0)) [
    | inl e ↦
        let none_left : n ≡ 0 = ground (arith, e) in
        rw none_left (_, _, nothing_asked fuel fd, CopyOutcome.copied (rest fd) refl (omega arith))
    | inr e ↦
        let positive : 0 < n = ground (arith, e) in
        elim (read_cases (safe_read (min bufsiz n) fd)) [
          | inl r ↦ (
            _,
            _,
            read_failed fuel n fd e r,
            CopyOutcome.failed (rest fd) refl positive (FailsBehind.now (min bufsiz n) r),
          )
          | inr (inl (fd', r)) ↦
              let room : 0 < min bufsiz n = omega (arith, pos, positive) in
              (
                _,
                _,
                at_end fuel n fd fd' e r,
                CopyOutcome.too_short (reader.nothing_at_end (min bufsiz n) fd fd' room r) positive,
              )
          | inr (inr (c, others, fd', r)) ↦
              let fitting = reader.at_most_count (min bufsiz n) fd fd' (c ∷ others) r in
              let (status, out, ends, h) =
                copy_fd_lem fuel (n - length (c ∷ others)) fd'
                  (fewer_left reader bufsiz pos (min bufsiz n) fuel c others fd fd' r enough) in
              (
                status,
                (c ∷ others) ++ out,
                read_some fuel n c others out status fd fd' e r ends,
                rw (reader.gives_next (min bufsiz n) fd fd' (c ∷ others) r) (
                    CopyOutcome-append n (c ∷ others) (rest fd') out status (omega (arith, fitting))
                      (λ f. FailsBehind.later fd' (min bufsiz n) (c ∷ others) r f) h),
              )
        ]
  ]
