-- ===== src/Sort/Compare/Laws.antt =====
-- The comparison of sort is the dictionary order of bytes, key by key, so a total preorder.
pub mod Keys
pub mod Preorder
use Prim.Native.Nat.{Ordering}
use Prim.Native.Nat
use lmcas.Base.{
  ℕ, zero, suc, ◌+◌, ◌≤◌, ◌<◌, Bool, true, false, not, ◌||◌, List, [], ◌∷◌, Option, none, some,
  Bytes, ◌==◌, if◌then◌else◌, length, keep, map, ◌≡◌, refl, sym, ap, ◌∙◌, arith, Bool-cases, inl,
  inr,
}
use lmcas.Sort.Order.{at_most, IsPreorder}
use lmcas.Sort.Fields.{KeyField, skip_while, key_text}
use lmcas.Sort.Compare.{
  minus, signed, or_else, memcmp, length_diff, text_diff, translated_loop, translated_diff,
  ignore_loop, key_diff, Options, keys_diff, keycompare, compare,
}

-- The dictionary order of byte strings.
unfoldable pub dictionary : Bytes → Bytes → Ordering
dictionary [] [] = Ordering.eq
dictionary [] (y ∷ b) = Ordering.lt
dictionary (x ∷ a) [] = Ordering.gt
dictionary (x ∷ a) (y ∷ b) = or_else (Nat.compare x y) (dictionary a b)

or_else_assoc : (p q r : Ordering) → or_else (or_else p q) r ≡ or_else p (or_else q r)
or_else_assoc Ordering.lt q r = refl
or_else_assoc Ordering.eq q r = refl
or_else_assoc Ordering.gt q r = refl

compare-suc : (m n : ℕ) → Nat.compare (suc m) (suc n) ≡ Nat.compare m n
compare-suc m n = ground arith

compare-zero_suc : (n : ℕ) → Nat.compare 0 (suc n) ≡ Ordering.lt
compare-zero_suc n = ground arith

compare-suc_zero : (n : ℕ) → Nat.compare (suc n) 0 ≡ Ordering.gt
compare-suc_zero n = ground arith

pub memcmp-dictionary : (a b : Bytes) → or_else (memcmp a b) (length_diff a b) ≡ dictionary a b
unfolding memcmp length_diff dictionary
memcmp-dictionary [] [] = refl
memcmp-dictionary [] (y ∷ b) = compare-zero_suc (length b)
memcmp-dictionary (x ∷ a) [] = compare-suc_zero (length a)
memcmp-dictionary (x ∷ a) (y ∷ b) =
    ap (or_else (or_else (Nat.compare x y) (memcmp a b))) (compare-suc (length a) (length b))
    ∙ or_else_assoc (Nat.compare x y) (memcmp a b) (Nat.compare (length a) (length b))
    ∙ ap (or_else (Nat.compare x y)) (memcmp-dictionary a b)

pub text_diff-dictionary : (a b : Bytes) → text_diff a b ≡ dictionary a b
unfolding text_diff
text_diff-dictionary [] [] = unfold dictionary in refl
text_diff-dictionary [] (y ∷ b) = unfold dictionary in refl
text_diff-dictionary (x ∷ a) [] = unfold dictionary in refl
text_diff-dictionary (x ∷ a) (y ∷ b) = memcmp-dictionary (x ∷ a) (y ∷ b)

translated_loop-memcmp :
    (translate : ℕ → ℕ) (a b : Bytes)
    → translated_loop translate a b ≡ memcmp (map translate a) (map translate b)
unfolding translated_loop memcmp
translated_loop-memcmp translate [] b = refl
translated_loop-memcmp translate (x ∷ a) [] = refl
translated_loop-memcmp translate (x ∷ a) (y ∷ b) =
    ap (or_else (Nat.compare (translate x) (translate y))) (translated_loop-memcmp translate a b)

length-map : (translate : ℕ → ℕ) (a : Bytes) → length (map translate a) ≡ length a
length-map translate [] = refl
length-map translate (x ∷ a) = omega (arith, length-map translate a)

pub translated_diff-dictionary :
    (translate : ℕ → ℕ) (a b : Bytes)
    → translated_diff translate a b ≡ dictionary (map translate a) (map translate b)
unfolding translated_diff
translated_diff-dictionary translate [] [] = unfold dictionary in refl
translated_diff-dictionary translate [] (y ∷ b) = unfold dictionary in refl
translated_diff-dictionary translate (x ∷ a) [] = unfold dictionary in refl
translated_diff-dictionary translate (x ∷ a) (y ∷ b) =
    let s = map translate (x ∷ a) in
    let t = map translate (y ∷ b) in
    let lengths : length_diff (x ∷ a) (y ∷ b) ≡ length_diff s t =
      unfold length_diff in rw (length-map translate a, length-map translate b) refl in
    rw (translated_loop-memcmp translate (x ∷ a) (y ∷ b), lengths) (memcmp-dictionary s t)

equal_heads :
    (x y : ℕ) (rest : Ordering)
    → or_else (Nat.compare x y) rest ≡ Ordering.eq
    → (x ≡ y) × (rest ≡ Ordering.eq)
equal_heads x y rest e = ground (arith, e)

pub dictionary_equal : (a b : Bytes) → dictionary a b ≡ Ordering.eq → a ≡ b
unfolding dictionary
dictionary_equal [] [] e = refl
dictionary_equal [] (y ∷ b) e = cc e
dictionary_equal (x ∷ a) [] e = cc e
dictionary_equal (x ∷ a) (y ∷ b) e =
    let (h, t) = equal_heads x y (dictionary a b) e in rw (h, dictionary_equal a b t) refl
