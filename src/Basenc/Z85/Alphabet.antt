-- ===== src/Basenc/Z85/Alphabet.antt =====
-- The characters that --ignore-garbage keeps for Z85, against those that the decoder takes.
use lmcas.Base.{
  ℕ, ◌<◌, ◌≡◌, refl, Bool, true, false, not, ◌||◌, Option, none, some, arith, ◌==◌, checked_below,
  checked_below_lem,
}
use lmcas.Basenc.Z85.{isz85, z85_value}

abbrev pub holds_value : Option ℕ → Bool
holds_value none = false
holds_value (some v) = true

abbrev same : Bool → Bool → Bool
same true b = b
same false b = not b

same_lem : (a b : Bool) → same a b ≡ true → a ≡ b
same_lem a b h = ground arith

alphabet_table :
    checked_below 256 (λ ch. same (isz85 ch) (ch == 0 || holds_value (z85_value ch))) ≡ true
unfolding checked_below isz85 z85_value
alphabet_table = refl

-- isz85 is true of the characters that have a value for the decoder, and of NUL, which has none.
pub isz85_exact : (ch : ℕ) → ch < 256 → isz85 ch ≡ (ch == 0 || holds_value (z85_value ch))
isz85_exact ch h =
    same_lem (isz85 ch) (ch == 0 || holds_value (z85_value ch))
      (checked_below_lem 256 _ ch alphabet_table h)
