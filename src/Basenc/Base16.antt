-- ===== src/Basenc/Base16.antt =====
-- annotated_Dataset-1/basenc.c: base 16 (isbase16, base16_length, base16_encode and the decoder).
-- A byte is a number below 256. `*in` is a signed char there: a byte from 128 on is negative, and
-- fails the same tests as the number does here.
pub mod Laws
use mathlib.Core.Option
use lmcas.Base.{
  ℕ, ◌+◌, ◌-◌, ◌*◌, ◌/◌, ◌%◌, ◌≡◌, refl, Bool, true, false, ◌&&◌, ◌||◌, Option, none, some, [], ◌∷◌,
  Bytes, codes, newline, leb, ◌==◌, if◌then◌else◌, get_or,
}
use lmcas.Basenc.Codec.{Codec, Decoded, decode_loop}

unfoldable pub isbase16 : ℕ → Bool
isbase16 ch = (leb b'0' ch && leb ch b'9') || (leb b'A' ch && leb ch b'F')

unfoldable pub base16_length : ℕ → ℕ
base16_length len = len * 2

abbrev pub base16 : Bytes
base16 = codes "0123456789ABCDEF"

-- `c >> 4` and `c & 0x0F`
unfoldable pub base16_encode : Bytes → Bytes
base16_encode [] = []
base16_encode (c ∷ in') = get_or base16 (c / 16) 0 ∷ get_or base16 (c % 16) 0 ∷ base16_encode in'

-- base16_decode_context, and the `i` of the struct around it.
pub record Base16Context : Type 0 where
  pub nibble : ℕ
  pub have_nibble : Bool
  pub i : ℕ

-- The program leaves `nibble` unset.
abbrev pub base16_decode_ctx_init : Base16Context
base16_decode_ctx_init = record { nibble = 0; have_nibble = false; i = 1 }

unfoldable pub nib_of : ℕ → Option ℕ
nib_of c =
    if leb b'A' c && leb c b'F'
    then some (c - b'A' + 10)
    else if leb b'0' c && leb c b'9'
    then some (c - b'0')
    else none

-- What a nibble does once it is read: the second of a pair writes an octet, a `char`.
unfoldable pub push_nib : Base16Context → ℕ → Base16Context × Bytes
push_nib ctx nib =
    if ctx.have_nibble
    then (record ctx { have_nibble = false }, (ctx.nibble * 16 + nib) % 256 ∷ [])
    else (record ctx { nibble = nib; have_nibble = true }, [])

-- The body of the loop of base16_decode_ctx.
unfoldable pub base16_step : Base16Context → ℕ → Option (Base16Context × Bytes)
unfolding push_nib nib_of
base16_step ctx c = if c == newline then some (ctx, []) else Option.map (push_nib ctx) (nib_of c)

unfoldable pub base16_decode_ctx : Base16Context → Bytes → Decoded Base16Context
base16_decode_ctx ctx [] = record { out = []; ctx = if ctx.have_nibble then none else some ctx }
base16_decode_ctx ctx (c ∷ in') = decode_loop base16_step ctx (c ∷ in')

abbrev pub base16_codec : Codec
base16_codec = record {
  State = Base16Context;
  ctx_init = base16_decode_ctx_init;
  pending = λ ctx. ctx.i;
  base_length = base16_length;
  isbase = isbase16;
  base_encode = λ x. some (base16_encode x);
  base_decode_ctx = base16_decode_ctx;
}

base16_runs : base16_encode (0xDE ∷ 0x01 ∷ []) ≡ codes "DE01"
unfolding base16_encode
base16_runs = refl
