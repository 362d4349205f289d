-- ===== src/Basenc/Programs.antt =====
-- The four encodings of basenc that this repository's basenc.c implements itself, through
-- do_encode and do_decode.
use lmcas.Base.{
  ℕ, ◌%◌, ◌^◌, ◌<◌, ◌≡◌, refl, ◌∙◌, some, false, [], ◌∷◌, ◌++◌, Bytes, IsByte, arith, length, All,
}
use lmcas.Basenc.Base16.{base16_codec, base16_encode, base16_length}
use lmcas.Basenc.Base16.Laws.{base16_lawful, base16-IsInverse}
use lmcas.Basenc.Base2.{
  base2msbf_codec, base2lsbf_codec, base2msbf_step, base2lsbf_step, base2msbf_encode,
  base2lsbf_encode, base2_length,
}
use lmcas.Basenc.Base2.Laws.{base2_lawful, base2msbf-IsInverse, base2lsbf-IsInverse}
use lmcas.Basenc.Z85.{z85_codec, z85_digits, quad_value, z85_length}
use lmcas.Basenc.Z85.Encode.{z85_text, z85_encode-z85_text}
use lmcas.Basenc.Z85.Laws.{z85_lawful, z85-IsInverse}
use lmcas.Basenc.Stream.{exit_success, do_encode, do_decode}
use lmcas.Basenc.Stream.RoundTrip.{do_decode-do_encode}

-- For every file of bytes and every number of columns, encoding to base 16 succeeds, and decoding
-- what it wrote succeeds with the file.
pub base16_round_trip :
    (w : ℕ) (xs : Bytes)
    → w < 2 ^ 64
    → All IsByte xs
    → ((do_encode base16_codec w xs).status ≡ exit_success)
      × (do_decode base16_codec false (do_encode base16_codec w xs).out
          ≡ record { out = xs; status = exit_success })
unfolding base16_length
base16_round_trip w xs hw b =
    do_decode-do_encode base16_codec base16_lawful base16-IsInverse w xs (base16_encode xs) hw
      (omega arith) b refl

-- The same for bit strings, most or least significant bit first.
pub base2_round_trip :
    (w : ℕ) (xs : Bytes)
    → w < 2 ^ 64
    → All IsByte xs
    → ((do_encode base2msbf_codec w xs).status ≡ exit_success)
      × (do_decode base2msbf_codec false (do_encode base2msbf_codec w xs).out
          ≡ record { out = xs; status = exit_success })
      × ((do_encode base2lsbf_codec w xs).status ≡ exit_success)
      × (do_decode base2lsbf_codec false (do_encode base2lsbf_codec w xs).out
          ≡ record { out = xs; status = exit_success })
unfolding base2_length
base2_round_trip w xs hw b =
    let (m, m') =
      do_decode-do_encode base2msbf_codec (base2_lawful base2msbf_step base2msbf_encode)
        base2msbf-IsInverse w xs (base2msbf_encode xs) hw (omega arith) b refl in
    let (l, l') =
      do_decode-do_encode base2lsbf_codec (base2_lawful base2lsbf_step base2lsbf_encode)
        base2lsbf-IsInverse w xs (base2lsbf_encode xs) hw (omega arith) b refl in
    (m, m', l, l')

z85_text_total : (xs : Bytes) → length xs % 4 ≡ 0 → (e : Bytes) × (z85_text xs ≡ some e)
unfolding z85_text
z85_text_total [] h = ([], refl)
z85_text_total (q0 ∷ []) h = absurd (omega arith)
z85_text_total (q0 ∷ q1 ∷ []) h = absurd (omega arith)
z85_text_total (q0 ∷ q1 ∷ q2 ∷ []) h = absurd (omega arith)
z85_text_total (q0 ∷ q1 ∷ q2 ∷ q3 ∷ xs) h =
    let (e, p) = z85_text_total xs (omega arith) in
    (z85_digits 5 (quad_value q0 q1 q2 q3) [] ++ e, rw p)

-- A file whose length is a multiple of 4 is encoded to Z85, and decoding gives it back.
pub z85_round_trip :
    (w : ℕ) (xs : Bytes)
    → w < 2 ^ 64
    → All IsByte xs
    → length xs % 4 ≡ 0
    → ((do_encode z85_codec w xs).status ≡ exit_success)
      × (do_decode z85_codec false (do_encode z85_codec w xs).out
          ≡ record { out = xs; status = exit_success })
unfolding z85_length
z85_round_trip w xs hw b h =
    let (e, p) = z85_text_total xs h in
    do_decode-do_encode z85_codec z85_lawful z85-IsInverse w xs e hw (omega arith) b
      (z85_encode-z85_text xs ∙ p)
