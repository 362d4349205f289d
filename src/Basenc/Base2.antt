-- ===== src/Basenc/Base2.antt =====
-- annotated_Dataset-1/basenc.c: bit strings, most or least significant bit first.
pub mod Laws
use Prim.Native.Nat.{bit_or}
use lmcas.Base.{
  ℕ, zero, suc, ◌+◌, ◌-◌, ◌*◌, ◌/◌, ◌%◌, ◌^◌, Bool, ◌||◌, Option, none, some, [], ◌∷◌, ◌++◌, Bytes,
  newline, ◌==◌, if◌then◌else◌,
}
use lmcas.Basenc.Codec.{Codec, Decoded, decode_loop}

unfoldable pub isbase2 : ℕ → Bool
isbase2 ch = ch == b'0' || ch == b'1'

unfoldable pub base2_length : ℕ → ℕ
base2_length len = len * 8

-- `c & 0x80 ? '1' : '0'; c <<= 1`, for the rounds that are left; `c` is an unsigned char.
unfoldable pub msbf_bits : ℕ → ℕ → Bytes
msbf_bits zero c = []
msbf_bits (suc n) c = (if c / 128 % 2 == 0 then b'0' else b'1') ∷ msbf_bits n (c * 2 % 256)

-- `c & 0x01 ? '1' : '0'; c >>= 1`
unfoldable pub lsbf_bits : ℕ → ℕ → Bytes
lsbf_bits zero c = []
lsbf_bits (suc n) c = (if c % 2 == 0 then b'0' else b'1') ∷ lsbf_bits n (c / 2)

unfoldable pub base2msbf_encode : Bytes → Bytes
unfolding msbf_bits
base2msbf_encode [] = []
base2msbf_encode (c ∷ in') = msbf_bits 8 c ++ base2msbf_encode in'

unfoldable pub base2lsbf_encode : Bytes → Bytes
unfolding lsbf_bits
base2lsbf_encode [] = []
base2lsbf_encode (c ∷ in') = lsbf_bits 8 c ++ base2lsbf_encode in'

-- base2_decode_context, and the `i` of the struct around it.
pub record Base2Context : Type 0 where
  pub octet : ℕ
  pub i : ℕ

abbrev pub base2_decode_ctx_init : Base2Context
base2_decode_ctx_init = record { octet = 0; i = 0 }

-- `octet |= bit << i`
unfoldable pub set_bit : ℕ → ℕ → ℕ → ℕ
set_bit octet c i = bit_or octet ((if c == b'1' then 1 else 0) * 2 ^ i)

-- The body of the loop of base2lsbf_decode_ctx; an octet is written when `i` has reached 8.
unfoldable pub base2lsbf_step : Base2Context → ℕ → Option (Base2Context × Bytes)
unfolding isbase2 set_bit
base2lsbf_step ctx c =
    let octet = set_bit ctx.octet c ctx.i in
    if c == newline
    then some (ctx, [])
    else if isbase2 c
    then if ctx.i + 1 == 8
      then some (record { octet = 0; i = 0 }, octet % 256 ∷ [])
      else some (record { octet = octet; i = ctx.i + 1 }, [])
    else none

-- The body of the loop of base2msbf_decode_ctx: `i` counts down from 8.
unfoldable pub base2msbf_step : Base2Context → ℕ → Option (Base2Context × Bytes)
unfolding isbase2 set_bit
base2msbf_step ctx c =
    let i = (if ctx.i == 0 then 8 else ctx.i) - 1 in
    let octet = set_bit ctx.octet c i in
    if c == newline
    then some (ctx, [])
    else if isbase2 c
    then if i == 0
      then some (record { octet = 0; i = 0 }, octet % 256 ∷ [])
      else some (record { octet = octet; i = i }, [])
    else none

-- Both decoders return ctx->i == 0 when they are asked for what they hold.
module _ (step : Base2Context → ℕ → Option (Base2Context × Bytes)) where
  unfoldable pub base2_decode_ctx : Base2Context → Bytes → Decoded Base2Context
  base2_decode_ctx ctx [] = record { out = []; ctx = if ctx.i == 0 then some ctx else none }
  base2_decode_ctx ctx (c ∷ in') = decode_loop step ctx (c ∷ in')

abbrev pub base2_codec :
    (Base2Context → ℕ → Option (Base2Context × Bytes)) → (Bytes → Bytes) → Codec
base2_codec step encode = record {
  State = Base2Context;
  ctx_init = base2_decode_ctx_init;
  pending = λ ctx. ctx.i;
  base_length = base2_length;
  isbase = isbase2;
  base_encode = λ x. some (encode x);
  base_decode_ctx = base2_decode_ctx step;
}

abbrev pub base2msbf_codec : Codec
base2msbf_codec = base2_codec base2msbf_step base2msbf_encode

abbrev pub base2lsbf_codec : Codec
base2lsbf_codec = base2_codec base2lsbf_step base2lsbf_encode
