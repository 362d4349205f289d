-- ===== src/Basenc/Base16/Laws.antt =====
-- The base 16 decoder in pieces, and against the encoder.
use lmcas.Base.{
  ℕ, ◌/◌, ◌%◌, ◌<◌, ◌≡◌, refl, ap, ◌∙◌, true, false, none, some, [], ◌∷◌, ◌++◌, Bytes, IsByte,
  newline, arith, ◌==◌, if◌then◌else◌, get_or, All, checked_below, checked_below_lem, length, not,
  ◌≢◌, ◌&&◌,
}
use lmcas.Basenc.Stream.{enc_blocksize}
use lmcas.Basenc.Codec.{
  decode_loop, decode_loop-append, decode_loop_step, decode_loop-keeps, decode-is_text, after,
}
use lmcas.Basenc.Laws.{IsLawful, IsInverse, Decodes, encoded}
use lmcas.Basenc.Base16.{
  Base16Context, base16, base16_codec, base16_decode_ctx, base16_decode_ctx_init, base16_encode,
  base16_length, base16_step, nib_of, push_nib,
}

pub decode_empty :
    (s : Base16Context)
    → base16_decode_ctx s [] ≡ record { out = []; ctx = if not s.have_nibble then some s else none }
unfolding base16_decode_ctx
decode_empty s = ground arith

pub base16_step_i :
    (s s' : Base16Context) (c : ℕ) (o : Bytes) → s.i ≡ 1 → base16_step s c ≡ some (s', o) → s'.i ≡ 1
unfolding base16_step
base16_step_i s s' c o p e = ground arith

-- ctx->i is 1 in all states.
abbrev pub base16_lawful : IsLawful base16_codec
unfolding base16_decode_ctx
base16_lawful = record {
  Valid = λ s. s.i ≡ 1;
  valid_init = refl;
  flush = λ s. not s.have_nibble;
  decode_nil = decode_empty;
  decode_valid =
      λ s s' x xs v e. decode_loop-keeps (λ s. s.i ≡ 1) base16_step base16_step_i s s' (x ∷ xs) v e;
  decode_append = λ s x xs y ys. decode_loop-append base16_step s (x ∷ xs) (y ∷ ys);
  flush_pending = λ s v e. absurd (omega (arith, v, e));
}

abbrev digit : ℕ → ℕ
digit n = get_or base16 n 0

digit_table :
    checked_below 16
      (λ n. elim (nib_of (digit n)) [ none ↦ false | some m ↦ m == n && not (digit n == newline) ])
    ≡ true
unfolding checked_below nib_of
digit_table = refl

nib_of-digit : (n : ℕ) → n < 16 → (nib_of (digit n) ≡ some n) × (digit n ≢ newline)
nib_of-digit n h = ground (arith, checked_below_lem 16 _ n digit_table h)

base16_step-digit :
    (s : Base16Context) (n : ℕ) → n < 16 → base16_step s (digit n) ≡ some (push_nib s n)
unfolding base16_step
base16_step-digit s n h = ground (arith, nib_of-digit n h)

push_high :
    (s : Base16Context) (n : ℕ)
    → s.have_nibble ≡ false
    → push_nib s n ≡ (record s { nibble = n; have_nibble = true }, [])
unfolding push_nib
push_high s n e = rw e

push_low :
    (s : Base16Context) (b : ℕ)
    → b < 256
    → s.nibble ≡ b / 16
    → s.have_nibble ≡ true
    → push_nib s (b % 16) ≡ (record s { have_nibble = false }, b ∷ [])
unfolding push_nib
push_low s b h n e = ground arith

-- The state and the byte after the two digits of a byte.
abbrev read : Base16Context → ℕ → Base16Context
read s b = record s { nibble = b / 16; have_nibble = false }

octet_read :
    (s : Base16Context) (b : ℕ) (rest : Bytes)
    → b < 256
    → s.have_nibble ≡ false
    → decode_loop base16_step s (digit (b / 16) ∷ digit (b % 16) ∷ rest)
      ≡ after (b ∷ []) (decode_loop base16_step (read s b) rest)
octet_read s b rest h e =
    let high = record s { nibble = b / 16; have_nibble = true } in
    decode_loop_step base16_step s _ _
      (base16_step-digit s (b / 16) (omega arith) ∙ ap some (push_high s (b / 16) e))
    ∙ decode_loop_step base16_step high _ _
        (base16_step-digit high (b % 16) (omega arith) ∙ ap some (push_low high b h refl refl))

read_back :
    (s : Base16Context) (xs : Bytes)
    → All IsByte xs
    → s.have_nibble ≡ false
    → (s' : Base16Context) × (decode_loop base16_step s (base16_encode xs)
        ≡ record { out = xs; ctx = some s' })
      × (s'.have_nibble ≡ false)
unfolding base16_encode
read_back s [] h e = (s, unfold decode_loop in refl, e)
read_back s (x ∷ xs) (hx, hxs) e =
    let (s', same, ready) = read_back (read s x) xs hxs refl in
    (s', octet_read s x (base16_encode xs) hx e ∙ ap (after (x ∷ [])) same, ready)

encode_append : (xs ys : Bytes) → base16_encode (xs ++ ys) ≡ base16_encode xs ++ base16_encode ys
unfolding base16_encode
encode_append [] ys = refl
encode_append (x ∷ xs) ys = simp (encode_append xs)

length_encode : (xs : Bytes) → length (base16_encode xs) ≡ base16_length (length xs)
unfolding base16_encode base16_length
length_encode [] = omega arith
length_encode (x ∷ xs) = omega (arith, length_encode xs)

digit-ne-newline : (n : ℕ) → n < 16 → digit n ≢ newline
digit-ne-newline n h = (nib_of-digit n h).1

pub base16_encode_text : (xs : Bytes) → All IsByte xs → All (λ ch. ch ≢ newline) (base16_encode xs)
unfolding base16_encode
base16_encode_text [] h = tt
base16_encode_text (x ∷ xs) (hx, hxs) = (
  digit-ne-newline _ (omega arith),
  (digit-ne-newline _ (omega arith), base16_encode_text xs hxs),
)

skip_newline : (s : Base16Context) → base16_step s newline ≡ some (s, [])
unfolding base16_step
skip_newline s = refl

decode_encode :
    (xs : Bytes) → All IsByte xs → Decodes base16_codec base16_lawful xs (base16_encode xs)
unfolding base16_decode_ctx
decode_encode [] h = (base16_decode_ctx_init, unfold base16_encode in refl, refl)
decode_encode (x ∷ xs) h =
    let (s, same, ready) = read_back base16_decode_ctx_init (x ∷ xs) h refl in
    (s, unfold base16_encode in same, rw ready)

pub base16-IsInverse : IsInverse enc_blocksize base16_codec base16_lawful
unfolding base16_decode_ctx
base16-IsInverse = record {
  encode_nil = unfold base16_encode in refl;
  encode_append = λ xs ys h. ap some (encode_append xs ys);
  length_encode =
      λ xs e h. encoded (λ e. length e ≡ base16_length (length xs)) _ e h (length_encode xs);
  encode_text = λ xs e b h. encoded (All (λ ch. ch ≢ newline)) _ e h (base16_encode_text xs b);
  encode-ne-nil = λ x xs e h. encoded (λ e. e ≢ []) _ e h (unfold base16_encode in λ p. cc);
  decode_is_text =
      decode-is_text base16_decode_ctx (λ r. r) base16_step (λ s x xs. refl) skip_newline;
  decode_encode =
      λ xs e b h. encoded (Decodes base16_codec base16_lawful xs) _ e h (decode_encode xs b);
}
