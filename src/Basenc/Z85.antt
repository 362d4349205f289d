-- ===== src/Basenc/Z85.antt =====
-- annotated_Dataset-1/basenc.c: Z85.
pub mod Group
pub mod Alphabet
pub mod Encode
pub mod Laws
use lmcas.Base.{
  ℕ, zero, suc, ◌+◌, ◌-◌, ◌*◌, ◌/◌, ◌%◌, ◌^◌, Bool, ◌&&◌, ◌||◌, Option, none, some, [], ◌∷◌, ◌++◌,
  Bytes, codes, newline, ltb, leb, ◌==◌, if◌then◌else◌, length, get_or, set, take,
}
use lmcas.Basenc.Codec.{Codec, Decoded, decode_loop}

unfoldable pub z85_length : ℕ → ℕ
z85_length len = len * 5 / 4

-- `strchr (s, ch) != NULL`: the terminating NUL is one of the characters that strchr finds.
unfoldable pub strchr : Bytes → ℕ → Bool
strchr [] ch = ch == 0
strchr (c ∷ s) ch = c == ch || strchr s ch

unfoldable pub c_isalnum : ℕ → Bool
c_isalnum ch =
    (leb b'0' ch && leb ch b'9') || (leb b'A' ch && leb ch b'Z') || (leb b'a' ch && leb ch b'z')

unfoldable pub isz85 : ℕ → Bool
unfolding strchr c_isalnum
isz85 ch = c_isalnum ch || strchr (codes ".-:+=^!/*?&<>()[]{}@%$#") ch

abbrev pub z85_encoding : Bytes
z85_encoding =
    codes "0123456789abcdefghijklmnopqrstuvwxyzABCDEFGHIJKLMNOPQRSTUVWXYZ.-:+=^!/*?&<>()[]{}@%$#"

-- `for (j = 4; j >= 0; --j) { c = val % 85; val /= 85; out[j] = z85_encoding[c]; }`: the characters
-- at 0 to j - 1, in front of those that are placed.
unfoldable pub z85_digits : ℕ → ℕ → Bytes → Bytes
z85_digits zero val placed = placed
z85_digits (suc j) val placed = z85_digits j (val / 85) (get_or z85_encoding (val % 85) 0 ∷ placed)

-- `quad[0] << 24` and so on, in a uint32_t.
unfoldable pub quad_value : ℕ → ℕ → ℕ → ℕ → ℕ
quad_value q0 q1 q2 q3 = (q0 * 2 ^ 24 + q1 * 2 ^ 16 + q2 * 2 ^ 8 + q3) % 2 ^ 32

-- The loop of z85_encode. `if (outidx + j < outlen)` keeps the characters that fit the buffer. An
-- input that ends inside a quad ends the program (`none`).
unfoldable pub z85_loop : ℕ → ℕ → Bytes → Option Bytes
unfolding z85_digits quad_value
z85_loop outlen outidx [] = some []
z85_loop outlen outidx (q0 ∷ q1 ∷ q2 ∷ q3 ∷ in') =
    let rest = z85_loop outlen (outidx + 5) in' in
    elim rest [
      | none ↦ none
      | some text ↦ some (take (outlen - outidx) (z85_digits 5 (quad_value q0 q1 q2 q3) []) ++ text)
    ]
z85_loop outlen outidx (q0 ∷ in') = none

unfoldable pub z85_encode : Bytes → Option Bytes
unfolding z85_loop z85_length
z85_encode in' = z85_loop (z85_length (length in')) 0 in'

abbrev pub z85_decoding : Bytes
z85_decoding =
    68 ∷ 255 ∷ 84 ∷ 83 ∷ 82 ∷ 72 ∷ 255 ∷ 75 ∷ 76 ∷ 70 ∷ 65 ∷ 255 ∷ 63 ∷ 62 ∷ 69 ∷ 0 ∷ 1 ∷ 2 ∷ 3 ∷ 4
    ∷ 5 ∷ 6 ∷ 7 ∷ 8 ∷ 9 ∷ 64 ∷ 255 ∷ 73 ∷ 66 ∷ 74 ∷ 71 ∷ 81 ∷ 36 ∷ 37 ∷ 38 ∷ 39 ∷ 40 ∷ 41 ∷ 42 ∷ 43
    ∷ 44 ∷ 45 ∷ 46 ∷ 47 ∷ 48 ∷ 49 ∷ 50 ∷ 51 ∷ 52 ∷ 53 ∷ 54 ∷ 55 ∷ 56 ∷ 57 ∷ 58 ∷ 59 ∷ 60 ∷ 61 ∷ 77
    ∷ 255 ∷ 78 ∷ 67 ∷ 255 ∷ 255 ∷ 10 ∷ 11 ∷ 12 ∷ 13 ∷ 14 ∷ 15 ∷ 16 ∷ 17 ∷ 18 ∷ 19 ∷ 20 ∷ 21 ∷ 22
    ∷ 23 ∷ 24 ∷ 25 ∷ 26 ∷ 27 ∷ 28 ∷ 29 ∷ 30 ∷ 31 ∷ 32 ∷ 33 ∷ 34 ∷ 35 ∷ 79 ∷ 255 ∷ 80 ∷ []

-- z85_decode_context, its octets in five fields, and the `i` of the struct around it.
pub record Z85Context : Type 0 where
  pub octets : Bytes
  pub z85_i : ℕ
  pub i : ℕ

-- The program leaves the octets unset.
abbrev pub z85_decode_ctx_init : Z85Context
z85_decode_ctx_init = record { octets = 0 ∷ 0 ∷ 0 ∷ 0 ∷ 0 ∷ []; z85_i = 0; i = 1 }

-- The value of a character, or `none` for garbage.
unfoldable pub z85_value : ℕ → Option ℕ
z85_value c =
    let v = get_or z85_decoding (c - 33) 255 in
    if leb 33 c && leb c 125 then (if v == 255 then none else some v) else none

-- Z85_LO_CTX_TO_32BIT_VAL and Z85_HI_CTX_TO_32BIT_VAL
unfoldable pub z85_lo : Bytes → ℕ
z85_lo octets =
    get_or octets 1 0 * 85 * 85 * 85
    + get_or octets 2 0 * 85 * 85
    + get_or octets 3 0 * 85
    + get_or octets 4 0

unfoldable pub z85_hi : Bytes → ℕ
z85_hi octets = get_or octets 0 0 * 85 * 85 * 85 * 85 % 2 ^ 32

-- The four bytes of five octets, or `none` where they overflow 32 bits.
unfoldable pub z85_group : Bytes → Option Bytes
unfolding z85_lo z85_hi
z85_group octets =
    let top = get_or octets 0 0 in
    let val = (z85_lo octets + z85_hi octets) % 2 ^ 32 in
    if top == 84
      || top == 83
      || (top == 82 && ltb (0xFFFFFFFF - 82 * 85 * 85 * 85 * 85) (z85_lo octets))
    then none
    else some (val / 2 ^ 24 % 256 ∷ val / 2 ^ 16 % 256 ∷ val / 2 ^ 8 % 256 ∷ val % 256 ∷ [])

-- What a value does once it is read: the fifth of a group writes four bytes.
unfoldable pub push_octet : Z85Context → ℕ → Option (Z85Context × Bytes)
unfolding z85_group
push_octet ctx v =
    let octets = set ctx.octets ctx.z85_i v in
    if ctx.z85_i + 1 == 5
    then elim (z85_group octets) [
      | none ↦ none
      | some bytes ↦ some (record ctx { octets = octets; z85_i = 0 }, bytes)
    ]
    else some (record ctx { octets = octets; z85_i = ctx.z85_i + 1 }, [])

-- The body of the loop of z85_decode_ctx.
unfoldable pub z85_step : Z85Context → ℕ → Option (Z85Context × Bytes)
unfolding push_octet z85_value
z85_step ctx c =
    if c == newline
    then some (ctx, [])
    else elim (z85_value c) [ none ↦ none | some v ↦ push_octet ctx v ]

-- `ctx->i = ctx->ctx.z85.i` behind the loop.
unfoldable pub z85_settle : Decoded Z85Context → Decoded Z85Context
z85_settle r = record r {
  ctx = elim r.ctx [ none ↦ none | some ctx ↦ some (record ctx { i = ctx.z85_i }) ];
}

unfoldable pub z85_decode_ctx : Z85Context → Bytes → Decoded Z85Context
unfolding z85_settle
z85_decode_ctx ctx [] = record { out = []; ctx = if ltb 0 ctx.z85_i then none else some ctx }
z85_decode_ctx ctx (c ∷ in') = z85_settle (decode_loop z85_step ctx (c ∷ in'))

abbrev pub z85_codec : Codec
z85_codec = record {
  State = Z85Context;
  ctx_init = z85_decode_ctx_init;
  pending = λ ctx. ctx.i;
  base_length = z85_length;
  isbase = isz85;
  base_encode = z85_encode;
  base_decode_ctx = z85_decode_ctx;
}
