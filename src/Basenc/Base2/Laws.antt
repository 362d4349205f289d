-- ===== src/Basenc/Base2/Laws.antt =====
-- The base 2 decoders in pieces, and against their encoders. The two bit orders share the proofs:
-- what differs is the loop body and the eight digits of a byte.
use lmcas.Base.{
  ℕ, ◌<◌, ◌≡◌, ◌≢◌, refl, ap, ◌∙◌, Bool, true, false, Option, none, some, [], ◌∷◌, ◌++◌,
  append_assoc, Bytes, IsByte, newline, arith, ◌==◌, length, length-append, All, All-append,
  checked_below, checked_below_lem, not, ==_iff, ◌&&◌,
}
use lmcas.Basenc.Codec.{
  Decoded, decode_loop, decode_loop-append, decode-is_text, decode-ne-nil, after, then_decode,
}
use lmcas.Basenc.Laws.{IsLawful, IsInverse, Decodes, encoded}
use lmcas.Basenc.Stream.{enc_blocksize}
use lmcas.Basenc.Base2.{
  Base2Context, base2_codec, base2_decode_ctx, base2_decode_ctx_init, base2_length, msbf_bits,
  lsbf_bits, base2msbf_encode, base2lsbf_encode, base2msbf_step, base2lsbf_step, base2msbf_codec,
  base2lsbf_codec,
}

-- ctx->i counts the bits that are held.
abbrev pub base2_lawful :
    (step : Base2Context → ℕ → Option (Base2Context × Bytes)) (encode : Bytes → Bytes)
    → IsLawful (base2_codec step encode)
unfolding base2_decode_ctx
base2_lawful step encode = record {
  Valid = λ s. Unit;
  valid_init = tt;
  flush = λ s. s.i == 0;
  decode_nil = λ s. refl;
  decode_valid = λ s s' x xs v e. tt;
  decode_append = λ s x xs y ys. decode_loop-append step s (x ∷ xs) (y ∷ ys);
  flush_pending = λ s v e. (==_iff s.i 0).1 e;
}

-- The decoder at its start gives `b` back from the digits, and is at its start again.
abbrev reads : (Base2Context → ℕ → Option (Base2Context × Bytes)) → Bytes → ℕ → Bool
reads step digits b =
    let r = decode_loop step base2_decode_ctx_init digits in
    elim r.ctx [
      | none ↦ false
      | some s ↦ s.octet == 0 && s.i == 0 && elim r.out [
        | [] ↦ false
        | c ∷ more ↦ c == b && elim more [ [] ↦ true | d ∷ l ↦ false ]
      ]
    ]

reads_lem :
    (r : Decoded Base2Context) (b : ℕ)
    → elim r.ctx [
      | none ↦ false
      | some s ↦ s.octet == 0 && s.i == 0 && elim r.out [
        | [] ↦ false
        | c ∷ more ↦ c == b && elim more [ [] ↦ true | d ∷ l ↦ false ]
      ]
    ]
      ≡ true
    → r ≡ record { out = b ∷ []; ctx = some base2_decode_ctx_init }
reads_lem r b h = ground arith

abbrev is_digits : Bytes → Bool
is_digits [] = true
is_digits (c ∷ cs) = not (c == newline) && is_digits cs

is_digits-All : (cs : Bytes) → is_digits cs ≡ true → All (λ ch. ch ≢ newline) cs
is_digits-All [] h = tt
is_digits-All (c ∷ cs) h = let (hc, hcs) = split in ((λ e. ground arith), is_digits-All cs hcs)
  where
    split : (not (c == newline) ≡ true) × (is_digits cs ≡ true)
    split = ground arith

-- What the eight digits of each byte are to a decoder.
record IsByteCode (step : Base2Context → ℕ → Option (Base2Context × Bytes)) (digits : ℕ → Bytes)
    : Type 0 where
  read_byte :
      (b : ℕ)
      → b < 256
      → decode_loop step base2_decode_ctx_init (digits b)
        ≡ record { out = b ∷ []; ctx = some base2_decode_ctx_init }
  eight : (b : ℕ) → length (digits b) ≡ 8
  text : (b : ℕ) → b < 256 → All (λ ch. ch ≢ newline) (digits b)
  skip : (s : Base2Context) → step s newline ≡ some (s, [])

and-cases : (a b : Bool) → (a && b) ≡ true → (a ≡ true) × (b ≡ true)
and-cases a b h = ground arith

-- All of that, checked for one byte.
abbrev is_code : (Base2Context → ℕ → Option (Base2Context × Bytes)) → (ℕ → Bytes) → ℕ → Bool
is_code step digits b = reads step (digits b) b && is_digits (digits b)

IsByteCode-of_table :
    (step : Base2Context → ℕ → Option (Base2Context × Bytes)) (digits : ℕ → Bytes)
    → checked_below 256 (is_code step digits) ≡ true
    → ((b : ℕ) → length (digits b) ≡ 8)
    → ((s : Base2Context) → step s newline ≡ some (s, []))
    → IsByteCode step digits
IsByteCode-of_table step digits table lengths skips = record {
  read_byte = λ b h. reads_lem (decode_loop step base2_decode_ctx_init (digits b)) b (parts b h).0;
  eight = lengths;
  text = λ b h. is_digits-All (digits b) (parts b h).1;
  skip = skips;
}
  where
    parts : (b : ℕ) → b < 256 → (reads step (digits b) b ≡ true) × (is_digits (digits b) ≡ true)
    parts b h = and-cases _ _ (checked_below_lem 256 (is_code step digits) b table h)

msbf_code : IsByteCode base2msbf_step (msbf_bits 8)
unfolding checked_below decode_loop base2msbf_step msbf_bits
msbf_code = IsByteCode-of_table base2msbf_step (msbf_bits 8) refl (λ b. refl) (λ s. refl)

lsbf_code : IsByteCode base2lsbf_step (lsbf_bits 8)
unfolding checked_below decode_loop base2lsbf_step lsbf_bits
lsbf_code = IsByteCode-of_table base2lsbf_step (lsbf_bits 8) refl (λ b. refl) (λ s. refl)

-- Both encoders write the digits of one byte after another.
module _ (step : Base2Context → ℕ → Option (Base2Context × Bytes)) (digits : ℕ → Bytes)
    (code : IsByteCode step digits) (encode : Bytes → Bytes) (encode_empty : encode [] ≡ [])
    (encode_cons : (b : ℕ) (xs : Bytes) → encode (b ∷ xs) ≡ digits b ++ encode xs) where
  encode_append : (xs ys : Bytes) → encode (xs ++ ys) ≡ encode xs ++ encode ys
  encode_append [] ys = rw encode_empty
  encode_append (x ∷ xs) ys =
      encode_cons x (xs ++ ys)
      ∙ ap (λ (t : Bytes). digits x ++ t) (encode_append xs ys)
      ∙ rw (encode_cons x xs, append_assoc)

  length_encode : (xs : Bytes) → length (encode xs) ≡ base2_length (length xs)
  unfolding base2_length
  length_encode [] = rw encode_empty
  length_encode (x ∷ xs) =
      ap length (encode_cons x xs)
      ∙ length-append (digits x) (encode xs)
      ∙ omega (arith, code.eight x, length_encode xs)

  encode_text : (xs : Bytes) → All IsByte xs → All (λ ch. ch ≢ newline) (encode xs)
  encode_text [] h = rw encode_empty tt
  encode_text (x ∷ xs) (hx, hxs) =
      rw encode_cons (All-append _ (digits x) (encode xs) (code.text x hx) (encode_text xs hxs))

  read_back :
      (xs : Bytes)
      → All IsByte xs
      → decode_loop step base2_decode_ctx_init (encode xs)
        ≡ record { out = xs; ctx = some base2_decode_ctx_init }
  read_back [] h = rw encode_empty (unfold decode_loop in refl)
  read_back (x ∷ xs) (hx, hxs) =
      ap (decode_loop step base2_decode_ctx_init) (encode_cons x xs)
      ∙ decode_loop-append step base2_decode_ctx_init (digits x) (encode xs)
      ∙ ap (λ (r : Decoded Base2Context). then_decode r (λ s. decode_loop step s (encode xs)))
          (code.read_byte x hx)
      ∙ ap (after (x ∷ [])) (read_back xs hxs)

  encode-ne-nil : (x : ℕ) (xs : Bytes) → encode (x ∷ xs) ≢ []
  unfolding base2_length
  encode-ne-nil x xs e = absurd (omega (arith, length_encode (x ∷ xs), ap length e))

  decode_encode :
      (xs : Bytes)
      → All IsByte xs
      → Decodes (base2_codec step encode) (base2_lawful step encode) xs (encode xs)
  unfolding base2_decode_ctx
  decode_encode [] h = (base2_decode_ctx_init, rw encode_empty, refl)
  decode_encode (x ∷ xs) h = (
    base2_decode_ctx_init,
    decode-ne-nil (base2_decode_ctx step) (λ r. r) step (λ s x xs. refl) base2_decode_ctx_init _
          (encode-ne-nil x xs)
        ∙ read_back (x ∷ xs) h,
    refl,
  )

  base2-IsInverse : IsInverse enc_blocksize (base2_codec step encode) (base2_lawful step encode)
  unfolding base2_decode_ctx
  base2-IsInverse = record {
    encode_nil = ap some encode_empty;
    encode_append = λ xs ys h. ap some (encode_append xs ys);
    length_encode =
        λ xs e h. encoded (λ e. length e ≡ base2_length (length xs)) _ e h (length_encode xs);
    encode_text = λ xs e b h. encoded (All (λ ch. ch ≢ newline)) _ e h (encode_text xs b);
    encode-ne-nil = λ x xs e h. encoded (λ e. e ≢ []) _ e h (encode-ne-nil x xs);
    decode_is_text =
        decode-is_text (base2_decode_ctx step) (λ r. r) step (λ s x xs. refl) code.skip;
    decode_encode = λ xs e b h.
        encoded (Decodes (base2_codec step encode) (base2_lawful step encode) xs) _ e h
          (decode_encode xs b);
  }

pub base2msbf-IsInverse :
    IsInverse enc_blocksize base2msbf_codec (base2_lawful base2msbf_step base2msbf_encode)
base2msbf-IsInverse =
    unfold base2msbf_encode in
    base2-IsInverse base2msbf_step (msbf_bits 8) msbf_code base2msbf_encode refl (λ b xs. refl)

pub base2lsbf-IsInverse :
    IsInverse enc_blocksize base2lsbf_codec (base2_lawful base2lsbf_step base2lsbf_encode)
base2lsbf-IsInverse =
    unfold base2lsbf_encode in
    base2-IsInverse base2lsbf_step (lsbf_bits 8) lsbf_code base2lsbf_encode refl (λ b xs. refl)
