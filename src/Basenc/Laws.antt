-- ===== src/Basenc/Laws.antt =====
-- What do_encode and do_decode need of an encoding (annotated_Dataset-1/basenc.c): the interface
-- between the stream loops and the encoders and decoders behind the function pointers.
use mathlib.Core.Path.{subst}
use mathlib.Core.Option.{some-injective}
use lmcas.Base.{
  ℕ, ◌≡◌, ◌≢◌, Bool, true, Option, none, some, [], ◌∷◌, ◌++◌, Bytes, IsByte, newline, if◌then◌else◌,
  length, keep, All,
}
use lmcas.Basenc.Codec.{Codec, then_decode, is_text}

-- Decoding in pieces. `Valid` holds of the states that the decoder reaches, and `flush` is what an
-- empty call returns.
pub record IsLawful (c : Codec) : Type 1 where
  pub Valid : c.State → Type 0
  pub valid_init : Valid c.ctx_init
  pub flush : c.State → Bool
  pub decode_nil :
      (s : c.State)
      → c.base_decode_ctx s [] ≡ record { out = []; ctx = if flush s then some s else none }
  pub decode_valid :
      (s s' : c.State) (x : ℕ) (xs : Bytes)
      → Valid s
      → (c.base_decode_ctx s (x ∷ xs)).ctx ≡ some s'
      → Valid s'
  pub decode_append :
      (s : c.State) (x : ℕ) (xs : Bytes) (y : ℕ) (ys : Bytes)
      → c.base_decode_ctx s (x ∷ xs ++ y ∷ ys)
        ≡ then_decode (c.base_decode_ctx s (x ∷ xs)) (λ s'. c.base_decode_ctx s' (y ∷ ys))
  pub flush_pending : (s : c.State) → Valid s → c.pending s ≡ 0 → flush s ≡ true

abbrev pub join_encoded : Option Bytes → Option Bytes → Option Bytes
join_encoded none e = none
join_encoded (some d) none = none
join_encoded (some d) (some e) = some (d ++ e)

-- The decoder reads `xs` back from its encoding `e`, and then holds nothing.
abbrev pub Decodes : (c : Codec) → IsLawful c → Bytes → Bytes → Type 0
Decodes c lawful xs e =
    (s : c.State) × (c.base_decode_ctx c.ctx_init e ≡ record { out = xs; ctx = some s })
    × (lawful.flush s ≡ true)

-- The encoder against the decoder, at blocks of `size` bytes.
pub record IsInverse (size : ℕ) (c : Codec) (lawful : IsLawful c) : Type 1 where
  pub encode_nil : c.base_encode [] ≡ some []
  pub encode_append :
      (xs ys : Bytes)
      → length xs ≡ size
      → c.base_encode (xs ++ ys) ≡ join_encoded (c.base_encode xs) (c.base_encode ys)
  pub length_encode :
      (xs e : Bytes) → c.base_encode xs ≡ some e → length e ≡ c.base_length (length xs)
  pub encode_text :
      (xs e : Bytes) → All IsByte xs → c.base_encode xs ≡ some e → All (λ ch. ch ≢ newline) e
  pub encode-ne-nil : (x : ℕ) (xs e : Bytes) → c.base_encode (x ∷ xs) ≡ some e → e ≢ []
  pub decode_is_text :
      (s : c.State) (xs : Bytes)
      → keep is_text xs ≢ []
      → c.base_decode_ctx s xs ≡ c.base_decode_ctx s (keep is_text xs)
  pub decode_encode :
      (xs e : Bytes) → All IsByte xs → c.base_encode xs ≡ some e → Decodes c lawful xs e

-- To speak of an encoding by the equation that names it.
pub encoded : (P : Bytes → Type 0) (d e : Bytes) → some d ≡ some e → P d → P e
encoded P d e h p = subst P (some-injective d e h) p
