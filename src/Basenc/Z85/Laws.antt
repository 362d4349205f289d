-- ===== src/Basenc/Z85/Laws.antt =====
-- The Z85 decoder in pieces, and against the encoder.
use lmcas.Base.{
  ℕ, ◌≡◌, ◌≢◌, refl, sym, ap, ◌∙◌, not, Option, none, some, [], ◌∷◌, ◌++◌, Bytes, IsByte, newline,
  arith, ltb, if◌then◌else◌, length, All, Option-cases, inl, inr,
}
use lmcas.Basenc.Codec.{
  decode_loop, decode_loop-append, decode_loop_step, decode_loop_stop, decode-is_text,
  decode-ne-nil, after, then_decode,
}
use lmcas.Basenc.Laws.{IsLawful, IsInverse, Decodes, join_encoded, encoded}
use lmcas.Basenc.Stream.{enc_blocksize}
use lmcas.Basenc.Z85.{
  Z85Context, z85_codec, z85_decode_ctx, z85_decode_ctx_init, z85_length, z85_encode, z85_settle,
  z85_step, push_octet,
}
use lmcas.Basenc.Z85.Encode.{
  z85_text, z85_encode-z85_text, z85_text-append, length-z85_text, z85_text_lines, z85_read_back,
}

-- The loop neither reads nor sets the outer `i`.
abbrev with_i : ℕ → Option (Z85Context × Bytes) → Option (Z85Context × Bytes)
with_i k none = none
with_i k (some (s, o)) = some (record s { i = k }, o)

z85_step_i : (s : Z85Context) (k c : ℕ) → z85_step (record s { i = k }) c ≡ with_i k (z85_step s c)
unfolding z85_step push_octet
z85_step_i s k c = ground arith

z85_loop_i :
    (s : Z85Context) (k : ℕ) (xs : Bytes)
    → z85_settle (decode_loop z85_step (record s { i = k }) xs)
      ≡ z85_settle (decode_loop z85_step s xs)
unfolding z85_settle
z85_loop_i s k [] = unfold decode_loop in refl
z85_loop_i s k (c ∷ xs) = elim (Option-cases (z85_step s c)) [
  | inl e ↦ ap z85_settle (
      decode_loop_stop z85_step (record s { i = k }) c xs (z85_step_i s k c ∙ ap (with_i k) e)
      ∙ sym (decode_loop_stop z85_step s c xs e))
  | inr ((t, o), e) ↦
      ap z85_settle
        (decode_loop_step z85_step (record s { i = k }) c xs (z85_step_i s k c ∙ ap (with_i k) e))
      ∙ ap (after o) (z85_loop_i t k xs)
      ∙ ap z85_settle (sym (decode_loop_step z85_step s c xs e))
]

settle-then_decode :
    (o : Bytes) (x : Option Z85Context) (ys : Bytes)
    → z85_settle (then_decode (record { out = o; ctx = x }) (λ s. decode_loop z85_step s ys))
      ≡ then_decode
          (z85_settle (record { out = o; ctx = x }))
          (λ s. z85_settle (decode_loop z85_step s ys))
unfolding z85_settle
settle-then_decode o none ys = refl
settle-then_decode o (some s) ys = ap (after o) (sym (z85_loop_i s s.z85_i ys))

decode_append :
    (s : Z85Context) (x : ℕ) (xs : Bytes) (y : ℕ) (ys : Bytes)
    → z85_decode_ctx s (x ∷ xs ++ y ∷ ys)
      ≡ then_decode (z85_decode_ctx s (x ∷ xs)) (λ s'. z85_decode_ctx s' (y ∷ ys))
unfolding z85_decode_ctx
decode_append s x xs y ys =
    let r = decode_loop z85_step s (x ∷ xs) in
    ap z85_settle (decode_loop-append z85_step s (x ∷ xs) (y ∷ ys))
    ∙ settle-then_decode r.out r.ctx (y ∷ ys)

decode_empty :
    (s : Z85Context)
    → z85_decode_ctx s [] ≡ record { out = []; ctx = if not (ltb 0 s.z85_i) then some s else none }
unfolding z85_decode_ctx
decode_empty s = ground arith

decode_valid :
    (s s' : Z85Context) (x : ℕ) (xs : Bytes)
    → (z85_decode_ctx s (x ∷ xs)).ctx ≡ some s'
    → s'.i ≡ 0
    → s'.z85_i ≡ 0
unfolding z85_decode_ctx z85_settle
decode_valid s s' x xs e h = ground arith

-- Behind a call the outer `i` counts the characters that are held; it starts at 1.
pub z85_lawful : IsLawful z85_codec
unfolding z85_decode_ctx
z85_lawful = record {
  Valid = λ s. s.i ≡ 0 → s.z85_i ≡ 0;
  valid_init = λ e. refl;
  flush = λ s. not (ltb 0 s.z85_i);
  decode_nil = decode_empty;
  decode_valid = λ s s' x xs v e. decode_valid s s' x xs e;
  decode_append = decode_append;
  flush_pending = λ s v e. rw (v e);
}

whole_text : (xs e : Bytes) → z85_encode xs ≡ some e → z85_text xs ≡ some e
whole_text xs e h = sym (z85_encode-z85_text xs) ∙ h

encode_append :
    (xs ys : Bytes)
    → length xs ≡ enc_blocksize
    → z85_encode (xs ++ ys) ≡ join_encoded (z85_encode xs) (z85_encode ys)
encode_append xs ys h =
    rw (z85_encode-z85_text (xs ++ ys), z85_encode-z85_text xs, z85_encode-z85_text ys)
      (z85_text-append xs ys (omega (arith, h)))

skip_newline : (s : Z85Context) → z85_step s newline ≡ some (s, [])
unfolding z85_step
skip_newline s = refl

start_read :
    (x : ℕ) (xs e : Bytes)
    → All IsByte (x ∷ xs)
    → z85_encode (x ∷ xs) ≡ some e
    → Decodes z85_codec z85_lawful (x ∷ xs) e
unfolding z85_decode_ctx z85_settle z85_lawful
start_read x xs e b h =
    let text = whole_text (x ∷ xs) e h in
    let nonempty : e ≢ [] =
      λ p. absurd (omega (arith, length-z85_text (x ∷ xs) e text, ap length p)) in
    let (s, same, done) = z85_read_back 0 0 0 0 0 1 (x ∷ xs) e b text in
    (
      record s { i = s.z85_i },
      decode-ne-nil z85_decode_ctx z85_settle z85_step (λ s x xs. refl) z85_decode_ctx_init e
            nonempty
          ∙ ap z85_settle same,
      rw done,
    )

decode_encode :
    (xs e : Bytes) → All IsByte xs → z85_encode xs ≡ some e → Decodes z85_codec z85_lawful xs e
decode_encode [] e b h =
    encoded (Decodes z85_codec z85_lawful []) [] e (unfold z85_text in whole_text [] e h)
      (z85_decode_ctx_init, unfold z85_decode_ctx in refl, unfold z85_lawful in refl)
decode_encode (x ∷ xs) e b h = start_read x xs e b h

pub z85-IsInverse : IsInverse enc_blocksize z85_codec z85_lawful
unfolding z85_decode_ctx
z85-IsInverse = record {
  encode_nil = z85_encode-z85_text [] ∙ unfold z85_text in refl;
  encode_append = encode_append;
  length_encode =
      λ xs e h. unfold z85_length in omega (arith, length-z85_text xs e (whole_text xs e h));
  encode_text = λ xs e b h. z85_text_lines xs e (whole_text xs e h);
  encode-ne-nil = λ x xs e h p.
      absurd (omega (arith, length-z85_text (x ∷ xs) e (whole_text (x ∷ xs) e h), ap length p));
  decode_is_text = decode-is_text z85_decode_ctx z85_settle z85_step (λ s x xs. refl) skip_newline;
  decode_encode = decode_encode;
}
