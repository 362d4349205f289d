-- ===== src/Basenc/Stream/Fill.antt =====
-- The inner loop of do_decode: the buffers that it fills cut the kept bytes of the file in pieces.
use lmcas.Base.{
  ℕ, zero, suc, ◌-◌, ◌≤◌, ◌<◌, ◌≡◌, sym, ap, ◌∙◌, Bool, true, false, not, ◌&&◌, some, [], ◌++◌,
  append_assoc, Bytes, arith, ltb, length, take, drop, keep-append, take-append-drop, length-drop,
  drop_all, Bool-cases, inl, inr,
}
use lmcas.Basenc.Codec.{Codec}
use lmcas.Basenc.Stream.{Filled, is_kept, clean, fill, fread_got, fread_left, fread_eof}

module _ (c : Codec) (ig : Bool) where
  clean-append : (xs ys : Bytes) → clean c ig (xs ++ ys) ≡ clean c ig xs ++ clean c ig ys
  unfolding clean
  clean-append xs ys = ground (arith, keep-append (is_kept c) xs ys)

  -- A full or last buffer: with what is left of the file it holds the kept bytes of the file.
  abbrev pub IsFilled : ℕ → Bytes → Bytes → Filled → Type 0
  IsFilled size inbuf file f =
      (f.inbuf ++ clean c ig f.left ≡ inbuf ++ clean c ig file)
      × (f.eof ≡ true → f.left ≡ [])
      × (f.eof ≡ false → (size ≤ length f.inbuf) × (length f.left < length file))

  abbrev grown : ℕ → Bytes → Bytes → Bytes
  grown size inbuf file = inbuf ++ clean c ig (fread_got (size - length inbuf) file)

  abbrev goes_on : ℕ → Bytes → Bytes → Bool
  goes_on size inbuf file =
      ltb (length (grown size inbuf file)) size && not (fread_eof (size - length inbuf) file)

  fill_more :
      (fuel size : ℕ) (inbuf file : Bytes)
      → goes_on size inbuf file ≡ true
      → fill c (suc fuel) size ig inbuf file
        ≡ fill c fuel size ig (grown size inbuf file) (fread_left (size - length inbuf) file)
  unfolding fill
  fill_more fuel size inbuf file e = rw e

  fill_last :
      (fuel size : ℕ) (inbuf file : Bytes)
      → goes_on size inbuf file ≡ false
      → fill c (suc fuel) size ig inbuf file
        ≡ some (record {
          inbuf = grown size inbuf file;
          left = fread_left (size - length inbuf) file;
          eof = fread_eof (size - length inbuf) file;
        })
  unfolding fill
  fill_last fuel size inbuf file e = rw e

  pub fill-IsFilled :
      (fuel size : ℕ) (inbuf file : Bytes)
      → length inbuf < size
      → length file < fuel
      → (f : Filled) × (fill c fuel size ig inbuf file ≡ some f) × IsFilled size inbuf file f
  fill-IsFilled zero size inbuf file h k = absurd (omega arith)
  fill-IsFilled (suc fuel) size inbuf file h k =
      let n = size - length inbuf in
      let inbuf' = inbuf ++ clean c ig (fread_got n file) in
      let all : inbuf' ++ clean c ig (fread_left n file) ≡ inbuf ++ clean c ig file =
        append_assoc inbuf _ _
        ∙ ap (λ (t : Bytes). inbuf ++ t)
            (sym (clean-append (take n file) (drop n file))
              ∙ ap (clean c ig) (take-append-drop n file)) in
      let shorter = length-drop n file in
      elim (Bool-cases (ltb (length inbuf') size && not (fread_eof n file))) [
        | inl more ↦
            let (f, e, (same, done, rest)) =
              fill-IsFilled fuel size inbuf' (fread_left n file) (ground arith) (ground arith) in
            (
              f,
              fill_more fuel size inbuf file more ∙ e,
              (same ∙ all, done, λ z. ((rest z).0, ground (arith, rest z))),
            )
        | inr last ↦ (
          record { inbuf = inbuf'; left = fread_left n file; eof = fread_eof n file },
          fill_last fuel size inbuf file last,
          (all, λ z. drop_all n file (ground arith), λ z. (ground arith, ground arith)),
        )
      ]
