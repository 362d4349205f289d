-- ===== src/Basenc/Translate/Laws.antt =====
-- The translated decoders hand the text of base 64 and base 32 on unchanged.
use lmcas.Base.{
  ℕ, ◌<◌, ◌≡◌, ◌≢◌, refl, ap, Bool, true, ◌&&◌, ◌||◌, not, some, [], ◌∷◌, Bytes, arith, leb, ◌==◌,
  All, map, checked_below, checked_below_lem,
}
use lmcas.Basenc.Codec.{Decoded}
use lmcas.Basenc.Translate.{
  url_char, from_url, base64url_encode, base64url_decode_ctx_wrapper, hex_char, norm_char, to_hex,
  base32hex_encode, base32hex_decode_ctx_wrapper,
}

-- A character that base 64 output has: not one of the two that stand for others in base64url.
abbrev pub IsBase64 : ℕ → Type 0
IsBase64 c = (c ≢ b'-') × (c ≢ b'_')

from_url-url_char : (text : Bytes) → All IsBase64 text → from_url (map url_char text) ≡ some text
unfolding from_url url_char
from_url-url_char [] h = refl
from_url-url_char (c ∷ text) (hc, ht) = ground (arith, from_url-url_char text ht)

-- The base64url decoder gives on what the base64url encoder wrote what the base 64 decoder gives on
-- the base 64 text, where that text has no '-' and no '_'.
pub base64url_translates :
    {S : Type 0} (base64_encode : Bytes → Bytes) (base64_decode_ctx : S → Bytes → Decoded S)
    (ctx : S) (xs : Bytes)
    → All IsBase64 (base64_encode xs)
    → base64url_decode_ctx_wrapper base64_decode_ctx ctx (base64url_encode base64_encode xs)
      ≡ base64_decode_ctx ctx (base64_encode xs)
unfolding base64url_decode_ctx_wrapper base64url_encode
base64url_translates base64_encode base64_decode_ctx ctx xs h =
    rw (from_url-url_char (base64_encode xs) h, base64url_decode_ctx_wrapper)

-- The characters of base 32: 'A' to 'Z', '2' to '7' and the padding.
unfoldable pub is_base32 : ℕ → Bool
is_base32 c = (leb b'A' c && leb c b'Z') || ((leb b'2' c && leb c b'7') || c == b'=')

abbrev pub IsBase32 : ℕ → Type 0
IsBase32 c = is_base32 c ≡ true

hex_table :
    checked_below 256
      (λ c. not (is_base32 c) || (leb 0x32 c && (leb c 0x5a && norm_char (hex_char c) == c)))
    ≡ true
unfolding checked_below is_base32 norm_char hex_char
hex_table = refl

IsBase32-below : (c : ℕ) → IsBase32 c → c < 256
unfolding is_base32
IsBase32-below c h = ground arith

hex_entry :
    (c : ℕ) → IsBase32 c → ((leb 0x32 c && leb c 0x5a) ≡ true) × (norm_char (hex_char c) ≡ c)
hex_entry c h =
    parts (is_base32 c) (leb 0x32 c) (leb c 0x5a) h
      (checked_below_lem 256 _ c hex_table (IsBase32-below c h))
  where
    parts :
        (a b d : Bool)
        → a ≡ true
        → (not a || (b && (d && norm_char (hex_char c) == c))) ≡ true
        → ((b && d) ≡ true) × (norm_char (hex_char c) ≡ c)
    parts a b d p q = ground arith

to_hex_step :
    (c : ℕ) (text hex : Bytes)
    → (leb 0x32 c && leb c 0x5a) ≡ true
    → to_hex text ≡ some hex
    → to_hex (c ∷ text) ≡ some (hex_char c ∷ hex)
unfolding to_hex
to_hex_step c text hex p e = rw (p, e, to_hex)

to_hex-norm_char :
    (text : Bytes)
    → All IsBase32 text
    → (hex : Bytes) × (to_hex text ≡ some hex) × (map norm_char hex ≡ text)
to_hex-norm_char [] h = ([], unfold to_hex in refl, refl)
to_hex-norm_char (c ∷ text) (hc, ht) =
    let (hex, e, back) = to_hex-norm_char text ht in
    let (inside, same) = hex_entry c hc in
    (hex_char c ∷ hex, to_hex_step c text hex inside e, rw (same, back))

-- On base 32 text the assertion of base32hex_encode holds, and the base32hex decoder gives on what
-- it wrote what the base 32 decoder gives on that text.
pub base32hex_translates :
    {S : Type 0} (base32_encode : Bytes → Bytes) (base32_decode_ctx : S → Bytes → Decoded S)
    (ctx : S) (xs : Bytes)
    → All IsBase32 (base32_encode xs)
    → (hex : Bytes) × (base32hex_encode base32_encode xs ≡ some hex)
      × (base32hex_decode_ctx_wrapper base32_decode_ctx ctx hex
          ≡ base32_decode_ctx ctx (base32_encode xs))
unfolding base32hex_encode base32hex_decode_ctx_wrapper
base32hex_translates base32_encode base32_decode_ctx ctx xs h =
    let (hex, e, back) = to_hex-norm_char (base32_encode xs) h in
    (hex, e, ap (base32_decode_ctx ctx) back)
