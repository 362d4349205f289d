-- ===== src/Sort/Compare/Laws/Keys.antt =====
-- Each loop of keycompare compares the bytes of the keys that count in dictionary order.
use Prim.Native.Nat.{Ordering}
use Prim.Native.Nat
use lmcas.Base.{
  ℕ, zero, suc, ◌<◌, Bool, not, [], ◌∷◌, Option, none, some, Bytes, length, keep, map, ◌≡◌, refl,
  ap, arith, Bool-cases, ◌⊎◌, inl, inr,
}
use lmcas.Sort.Fields.{KeyField, skip_while}
use lmcas.Sort.Compare.{or_else, ignore_loop, key_diff}
use lmcas.Sort.Compare.Laws.{dictionary, text_diff-dictionary, translated_diff-dictionary}

-- The bytes of a key that count.
abbrev pub counted : Option (ℕ → Bool) → Bytes → Bytes
counted none a = a
counted (some ignore) a = keep (λ c. not (ignore c)) a

-- The bytes as they count.
abbrev pub translated : Option (ℕ → ℕ) → Bytes → Bytes
translated none a = a
translated (some translate) a = map translate a

abbrev pub key_bytes : KeyField → Bytes → Bytes
key_bytes key a = translated key.translate (counted key.ignore a)

-- What skip_while stops at: the first byte that counts, if one does.
abbrev Stops : (ℕ → Bool) → Bytes → Type 0
Stops ignore a =
    ((skip_while ignore a ≡ []) × (keep (λ c. not (ignore c)) a ≡ []))
    ⊎ ((x : ℕ) × (rest : Bytes) × (skip_while ignore a ≡ x ∷ rest)
        × (keep (λ c. not (ignore c)) a ≡ x ∷ keep (λ c. not (ignore c)) rest)
        × (length rest < length a))

skip_while-Stops : (ignore : ℕ → Bool) (a : Bytes) → Stops ignore a
unfolding skip_while
skip_while-Stops ignore [] = inl (refl, refl)
skip_while-Stops ignore (c ∷ a) = elim (Bool-cases (ignore c)) [
  | inr e ↦ rw e (inr (c, a, refl, refl, omega arith))
  | inl e ↦ rw e (elim (skip_while-Stops ignore a) [
    | inl both ↦ inl both
    | inr (x, rest, s, k, shorter) ↦ inr (x, rest, s, k, omega (arith, shorter))
  ])
]

ignore_loop-dictionary :
    (ignore : ℕ → Bool) (translate : ℕ → ℕ) (rounds : ℕ) (a b : Bytes)
    → length a < rounds
    → ignore_loop ignore translate rounds a b
      ≡ dictionary
          (map translate (keep (λ c. not (ignore c)) a))
          (map translate (keep (λ c. not (ignore c)) b))
unfolding ignore_loop dictionary
ignore_loop-dictionary ignore translate zero a b enough = absurd (omega arith)
ignore_loop-dictionary ignore translate (suc rounds) a b enough = elim (skip_while-Stops ignore a) [
  | inl (s, k) ↦ elim (skip_while-Stops ignore b) [
    | inl (s', k') ↦ rw (s, ignore_loop, s', k, k') refl
    | inr (y, textb, s', k', _) ↦ rw (s, ignore_loop, s', k, k') refl
  ]
  | inr (x, texta, s, k, shorter) ↦ elim (skip_while-Stops ignore b) [
    | inl (s', k') ↦ rw (s, ignore_loop, s', k, k') refl
    | inr (y, textb, s', k', _) ↦
        rw (s, ignore_loop, s', k, k')
          (ap (or_else (Nat.compare (translate x) (translate y)))
            (ignore_loop-dictionary ignore translate rounds texta textb (omega arith)))
  ]
]

map_same : (a : Bytes) → map (λ c. c) a ≡ a
map_same [] = refl
map_same (x ∷ a) = ap (λ (l : Bytes). x ∷ l) (map_same a)

key_diff_by :
    (key : KeyField) (ignore : Option (ℕ → Bool)) (translate : Option (ℕ → ℕ)) (a b : Bytes)
    → key.ignore ≡ ignore
    → key.translate ≡ translate
    → key_diff key a b
      ≡ dictionary
          (translated translate (counted ignore a))
          (translated translate (counted ignore b))
unfolding key_diff
key_diff_by key none none a b i t = rw (i, t) (text_diff-dictionary a b)
key_diff_by key none (some translate) a b i t = rw (i, t) (translated_diff-dictionary translate a b)
key_diff_by key (some ignore) none a b i t =
    let loop = ignore_loop-dictionary ignore (λ c. c) (suc (length a)) a b (omega arith) in
    rw (i, t)
      (rw (map_same (keep (λ c. not (ignore c)) a), map_same (keep (λ c. not (ignore c)) b)) at
        loop)
key_diff_by key (some ignore) (some translate) a b i t =
    rw (i, t) (ignore_loop-dictionary ignore translate (suc (length a)) a b (omega arith))

-- A round of keycompare compares the bytes that count in dictionary order.
pub key_diff-dictionary :
    (key : KeyField) (a b : Bytes)
    → key_diff key a b ≡ dictionary (key_bytes key a) (key_bytes key b)
key_diff-dictionary key a b = key_diff_by key key.ignore key.translate a b refl refl
