-- ===== src/Head/Reads.antt =====
-- What a loop of head or wc has read of a file when it ends: all of it, or the part in front of a
-- read that failed.
use lmcas.Base.{
  ℕ, ◌<◌, Bool, true, false, [], ◌++◌, Option, none, some, Bytes, length, ◌≡◌, refl, sym, ap, subst,
  ◌∙◌, append_assoc, append-nil,
}
use lmcas.Head.Input.{Reader, FullReader}
use lmcas.Head.Start.{Copied, wrote}

-- The part of a text that was read: all of it when `ok`, and else what Failed is about.
pub record IsRead (text part : Bytes) (Failed : Type 0) (ok : Bool) : Type 0 where
  pub unread : Bytes
  pub parts : text ≡ part ++ unread
  pub complete : ok ≡ true → unread ≡ []
  pub failed : ok ≡ false → Failed

pub IsRead-append :
    {Failed Failed' : Type 0} (chunk text part : Bytes) (ok : Bool)
    → (Failed → Failed')
    → IsRead text part Failed ok
    → IsRead (chunk ++ text) (chunk ++ part) Failed' ok
IsRead-append chunk text part ok later h = record {
  unread = h.unread;
  parts = ap (λ (t : Bytes). chunk ++ t) h.parts ∙ sym (append_assoc chunk part h.unread);
  complete = h.complete;
  failed = λ e. later (h.failed e);
}

pub nothing-IsRead : {Failed : Type 0} (text : Bytes) → Failed → IsRead text [] Failed false
nothing-IsRead text f = record {
  unread = text;
  parts = refl;
  complete = λ h. cc h;
  failed = λ h. f;
}

pub all-IsRead : {Failed : Type 0} (text part : Bytes) → text ≡ part → IsRead text part Failed true
all-IsRead text part e = record {
  unread = [];
  parts = e ∙ sym (append-nil part);
  complete = λ h. refl;
  failed = λ h. cc h;
}

module _ (reader : Reader) where
  open reader use {Fd, rest, safe_read}

  -- Reads from a state give the bytes of `part`, and the read behind them gives SAFE_READ_ERROR.
  pub data FailsBehind : Fd → Bytes → Type 0 where
    now : {fd : Fd} (count : ℕ) → safe_read count fd ≡ none → FailsBehind fd []
    later :
        {fd : Fd} {part : Bytes} (fd' : Fd) (count : ℕ) (chunk : Bytes)
        → safe_read count fd ≡ some (chunk, fd')
        → FailsBehind fd' part
        → FailsBehind fd (chunk ++ part)

  -- `part` is what was read from a state: all that was to come, or what precedes a failing read.
  abbrev pub IsReadFrom : Fd → Bytes → Bool → Type 0
  IsReadFrom fd part ok = IsRead (rest fd) part (FailsBehind fd part) ok

  pub read_failed-IsReadFrom :
      (count : ℕ) (fd : Fd) → safe_read count fd ≡ none → IsReadFrom fd [] false
  read_failed-IsReadFrom count fd r = nothing-IsRead (rest fd) (FailsBehind.now count r)

  pub read_end-IsReadFrom :
      (count : ℕ) (fd fd' : Fd)
      → 0 < count
      → safe_read count fd ≡ some ([], fd')
      → IsReadFrom fd [] true
  read_end-IsReadFrom count fd fd' room r =
      all-IsRead (rest fd) [] (reader.nothing_at_end count fd fd' room r)

  pub read-IsReadFrom :
      (count : ℕ) (fd fd' : Fd) (chunk part : Bytes) (ok : Bool)
      → safe_read count fd ≡ some (chunk, fd')
      → IsReadFrom fd' part ok
      → IsReadFrom fd (chunk ++ part) ok
  read-IsReadFrom count fd fd' chunk part ok r h =
      rw (reader.gives_next count fd fd' chunk r)
        (IsRead-append chunk (rest fd') part ok (λ f. FailsBehind.later fd' count chunk r f) h)

module _ (reader : FullReader) where
  open reader use {Fd, rest, full_read}

  -- Reads from a state give the bytes of `part`, and the read behind them gives fewer bytes than
  -- were asked for, with an errno that is not 0.
  pub data FullFailsBehind : Fd → Bytes → Type 0 where
    now :
        {fd : Fd} (count : ℕ)
        → length (full_read count fd).0.0 < count
        → (full_read count fd).0.1 ≡ true
        → FullFailsBehind fd []
    later :
        {fd : Fd} {part : Bytes} (count : ℕ)
        → length (full_read count fd).0.0 ≡ count
        → FullFailsBehind (full_read count fd).1 part
        → FullFailsBehind fd ((full_read count fd).0.0 ++ part)

  abbrev pub IsFullyReadFrom : Fd → Bytes → Bool → Type 0
  IsFullyReadFrom fd part ok = IsRead (rest fd) part (FullFailsBehind fd part) ok

  pub full_read-IsFullyReadFrom :
      (count : ℕ) (fd : Fd) (part : Bytes) (ok : Bool)
      → length (full_read count fd).0.0 ≡ count
      → IsFullyReadFrom ((full_read count fd).1) part ok
      → IsFullyReadFrom fd ((full_read count fd).0.0 ++ part) ok
  full_read-IsFullyReadFrom count fd part ok filled h =
      let fd' = (full_read count fd).1 in
      subst
        (λ (text : Bytes).
          IsRead text ((full_read count fd).0.0 ++ part)
            (FullFailsBehind fd ((full_read count fd).0.0 ++ part)) ok)
        (sym (reader.gives_next count fd))
        (IsRead-append ((full_read count fd).0.0) (rest fd') part ok
          (λ f. FullFailsBehind.later count filled f) h)

-- What is read with a copy goes in front of what is read behind it.
pub wrote_lem :
    (chunk : Bytes) (copied : Option Copied) (r : Copied)
    → copied ≡ some r
    → wrote chunk copied ≡ some (record r { out = chunk ++ r.out })
unfolding wrote
wrote_lem chunk copied r e = rw e refl
