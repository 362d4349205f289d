-- ===== src/Basenc/Examples.antt =====
-- Runs of the modelled basenc, and its theorems at concrete inputs.
use lmcas.Base.{
  ℕ, ◌^◌, ◌/◌, ◌%◌, ◌≤◌, ◌≡◌, refl, ◌++◌, [], ◌∷◌, some, none, Bytes, codes, newline, true, false,
  arith, ltb, ◌||◌, ◌==◌, if◌then◌else◌, keep,
}
use lmcas.Basenc.Codec.{is_text, decode_loop}
use lmcas.Basenc.Base16.{base16_codec, base16_encode, base16_decode_ctx, base16_length}
use lmcas.Basenc.Base16.Laws.{base16_lawful, base16-IsInverse}
use lmcas.Basenc.Base2.{base2msbf_codec, base2lsbf_codec}
use lmcas.Basenc.Z85.{z85_codec, z85_group, isz85, z85_value, z85_decode_ctx, z85_step, z85_length}
use lmcas.Basenc.Z85.Group.{number, z85_group_exact}
use lmcas.Basenc.Z85.Alphabet.{holds_value, isz85_exact}
use lmcas.Basenc.Wrap.{wrap_write}
use lmcas.Basenc.Wrap.Lines.{IsWrapped, wrap_write_lines}
use lmcas.Basenc.Translate.{
  base64url_encode, base64url_decode_ctx_wrapper, base32hex_encode, base32hex_decode_ctx_wrapper,
}
use lmcas.Basenc.Translate.Laws.{is_base32, base64url_translates, base32hex_translates}
use lmcas.Basenc.Stream.{exit_success, exit_failure, clean, do_encode, do_decode}
use lmcas.Basenc.Stream.Encode.{encoded_run, do_encode-wrap_text}
use lmcas.Basenc.Stream.Refines.{decode_whole, do_decode-decode_whole}
use lmcas.Basenc.Programs.{base16_round_trip, base2_round_trip, z85_round_trip}

abbrev abc : Bytes
abc = codes "abc"

abbrev abc4 : Bytes
abc4 = codes "abcd"

encode_run :
    do_encode base16_codec 4 abc
    ≡ record { out = codes "6162" ++ newline ∷ codes "63" ++ newline ∷ []; status = exit_success }
unfolding do_encode wrap_write base16_encode base16_length
encode_run = refl

-- NUL passes --ignore-garbage for Z85, and the decoder then rejects it.
nul_is_kept :
    ((do_decode z85_codec true (codes "Hello W,orld")).status ≡ exit_success)
    × ((do_decode z85_codec true (codes "Hello" ++ (0 ∷ codes "World"))).status ≡ exit_failure)
unfolding do_decode z85_decode_ctx isz85 z85_step decode_loop z85_length
nul_is_kept = (refl, refl)

base16_round_trip_example :
    ((do_encode base16_codec 4 abc).status ≡ exit_success)
    × (do_decode base16_codec false (do_encode base16_codec 4 abc).out
        ≡ record { out = abc; status = exit_success })
base16_round_trip_example = base16_round_trip 4 abc (omega arith) (omega arith)

base2_round_trip_example :
    ((do_encode base2msbf_codec 10 abc).status ≡ exit_success)
    × (do_decode base2msbf_codec false (do_encode base2msbf_codec 10 abc).out
        ≡ record { out = abc; status = exit_success })
    × ((do_encode base2lsbf_codec 10 abc).status ≡ exit_success)
    × (do_decode base2lsbf_codec false (do_encode base2lsbf_codec 10 abc).out
        ≡ record { out = abc; status = exit_success })
base2_round_trip_example = base2_round_trip 10 abc (omega arith) (omega arith)

z85_round_trip_example :
    ((do_encode z85_codec 0 abc4).status ≡ exit_success)
    × (do_decode z85_codec false (do_encode z85_codec 0 abc4).out
        ≡ record { out = abc4; status = exit_success })
z85_round_trip_example = z85_round_trip 0 abc4 (omega arith) (omega arith) refl

do_decode-decode_whole_example :
    do_decode base16_codec true (codes "61 62")
    ≡ decode_whole base16_codec base16_codec.ctx_init (clean base16_codec true (codes "61 62"))
do_decode-decode_whole_example =
    do_decode-decode_whole base16_codec base16_lawful true (codes "61 62")
      (unfold base16_length in omega arith)

do_encode-wrap_text_example : do_encode base16_codec 4 abc ≡ encoded_run 4 0 (base16_encode abc)
do_encode-wrap_text_example =
    do_encode-wrap_text base16_codec base16_lawful base16-IsInverse 4 abc (base16_encode abc)
      (omega arith) refl

z85_group_exact_example : z85_group (82 ∷ 23 ∷ 54 ∷ 12 ∷ 0 ∷ []) ≡ (
    let v = number 82 23 54 12 0 in
    if ltb v (2 ^ 32)
    then some (v / 2 ^ 24 ∷ v / 2 ^ 16 % 256 ∷ v / 2 ^ 8 % 256 ∷ v % 256 ∷ [])
    else none)
z85_group_exact_example =
    z85_group_exact 82 23 54 12 0 (omega arith) (omega arith) (omega arith) (omega arith)
      (omega arith)

isz85_exact_example : isz85 b'$' ≡ (b'$' == 0 || holds_value (z85_value b'$'))
isz85_exact_example = isz85_exact b'$' (omega arith)

wrap_write_lines_example :
    (text : Bytes) × (col' : ℕ) × (wrap_write abc 2 1 ≡ some (text, col'))
    × IsWrapped 2 col' 1 text
    × (keep is_text text ≡ abc)
    × (col' ≤ 2)
wrap_write_lines_example =
    wrap_write_lines 2 1 abc (omega arith) (omega arith) (omega arith) (omega arith)

-- A stand-in for the base 64 encoder of gnulib, on inputs of three bytes.
abbrev sextets : Bytes → Bytes
sextets (a ∷ b ∷ c ∷ []) = codes "+/A="
sextets xs = []

base64url_translates_example :
    base64url_decode_ctx_wrapper base16_decode_ctx base16_codec.ctx_init
      (base64url_encode sextets abc)
    ≡ base16_decode_ctx base16_codec.ctx_init (codes "+/A=")
base64url_translates_example =
    base64url_translates sextets base16_decode_ctx base16_codec.ctx_init abc (omega arith)

abbrev quintets : Bytes → Bytes
quintets xs = codes "MFRGG==="

base32hex_translates_example :
    (hex : Bytes) × (base32hex_encode quintets abc ≡ some hex)
    × (base32hex_decode_ctx_wrapper base16_decode_ctx base16_codec.ctx_init hex
        ≡ base16_decode_ctx base16_codec.ctx_init (codes "MFRGG==="))
base32hex_translates_example =
    base32hex_translates quintets base16_decode_ctx base16_codec.ctx_init abc
      (unfold is_base32 in (refl, (refl, (refl, (refl, (refl, (refl, (refl, (refl, tt)))))))))
