-- ===== src/Basenc/Translate.antt =====
-- annotated_Dataset-1/basenc.c: base64url and base32hex, which translate the characters of base 64
-- and base 32. The encoders and decoders of those two are gnulib's: they are arguments here.
use lmcas.Base.{
  ℕ, ◌-◌, ◌≡◌, Bool, ◌&&◌, ◌||◌, not, Option, none, some, [], ◌∷◌, ◌++◌, Bytes, codes, leb, ◌==◌,
  if◌then◌else◌, get_or, take, map,
}
use lmcas.Basenc.Codec.{Decoded}
pub mod Laws

-- The body of the loop of base64url_encode.
unfoldable pub url_char : ℕ → ℕ
url_char c = if c == b'+' then b'-' else if c == b'/' then b'_' else c

unfoldable pub base64url_encode : (Bytes → Bytes) → Bytes → Bytes
unfolding url_char
base64url_encode base64_encode in' = map url_char (base64_encode in')

unfoldable pub isbase64url : (ℕ → Bool) → ℕ → Bool
isbase64url isbase64 ch =
    ch == b'-' || (ch == b'_' || (not (ch == b'+') && (not (ch == b'/') && isbase64 ch)))

-- The loop over the copy of the input: `none` is the rejection of base 64 characters.
unfoldable pub from_url : Bytes → Option Bytes
from_url [] = some []
from_url (c ∷ p) =
    let rest = from_url p in
    if c == b'+' || c == b'/' then none else elim rest [
      | none ↦ none
      | some inbuf ↦ some ((if c == b'-' then b'+' else if c == b'_' then b'/' else c) ∷ inbuf)
    ]

unfoldable pub base64url_decode_ctx_wrapper :
    {S : Type 0} → (S → Bytes → Decoded S) → S → Bytes → Decoded S
unfolding from_url
base64url_decode_ctx_wrapper base64_decode_ctx ctx in' = elim (from_url in') [
  | none ↦ record { out = []; ctx = none }
  | some inbuf ↦ base64_decode_ctx ctx inbuf
]

abbrev pub base32_norm_to_hex : Bytes
base32_norm_to_hex =
    codes "QRSTUV"
    ++ (0x38 ∷ 0x39 ∷ 0x3a ∷ 0x3b ∷ 0x3c ∷ 0x3d ∷ 0x3e ∷ 0x3f ∷ 0x40 ∷ [])
    ++ codes "0123456789ABCDEFGHIJKLMNOP"

abbrev pub base32_hex_to_norm : Bytes
base32_hex_to_norm =
    codes "ABCDEFGHIJ"
    ++ (0x3a ∷ 0x3b ∷ 0x3c ∷ 0x3d ∷ 0x3e ∷ 0x3f ∷ 0x40 ∷ [])
    ++ codes "KLMNOPQRSTUVWXYZ234567"

unfoldable pub isbase32hex : ℕ → Bool
isbase32hex ch = (leb b'0' ch && leb ch b'9') || (leb b'A' ch && leb ch b'V')

unfoldable pub hex_char : ℕ → ℕ
hex_char c = get_or base32_norm_to_hex (c - 0x32) 0

-- `none` when the assertion on a character fails.
unfoldable pub to_hex : Bytes → Option Bytes
unfolding hex_char
to_hex [] = some []
to_hex (c ∷ p) =
    let rest = to_hex p in
    if leb 0x32 c && leb c 0x5a
    then elim rest [ none ↦ none | some out ↦ some (hex_char c ∷ out) ]
    else none

unfoldable pub base32hex_encode : (Bytes → Bytes) → Bytes → Option Bytes
unfolding to_hex
base32hex_encode base32_encode in' = to_hex (base32_encode in')

-- The body of the loop of base32hex_decode_ctx_wrapper.
unfoldable pub norm_char : ℕ → ℕ
unfolding isbase32hex
norm_char c = if isbase32hex c then get_or base32_hex_to_norm (c - 0x30) 0 else c

unfoldable pub base32hex_decode_ctx_wrapper :
    {S : Type 0} → (S → Bytes → Decoded S) → S → Bytes → Decoded S
unfolding norm_char
base32hex_decode_ctx_wrapper base32_decode_ctx ctx in' = base32_decode_ctx ctx (map norm_char in')
