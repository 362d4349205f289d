-- ===== src/Sort/Compare/Laws/Preorder.antt =====
-- compare is a total preorder.
use Prim.Native.Nat.{Ordering}
use Prim.Native.Nat
use lmcas.Base.{
  ℕ, All, Bool, true, false, ◌||◌, List, [], ◌∷◌, Bytes, ◌≡◌, refl, ap, ◌∙◌, arith, Bool-cases, inl,
  inr,
}
use lmcas.Sort.Order.{at_most, IsPreorder}
use lmcas.Sort.Fields.{KeyField, key_text}
use lmcas.Sort.Fields.Laws.{Fits, key_text-Fits}
use lmcas.Sort.Compare.{
  minus, signed, or_else, text_diff, key_diff, Options, keys_diff, keycompare, compare_at, compare,
}
use lmcas.Sort.Compare.Laws.{dictionary, text_diff-dictionary}
use lmcas.Sort.Compare.Laws.Keys.{key_bytes, key_diff-dictionary}

-- How the signs of two comparisons bind the third one.
abbrev pub Chain : Ordering → Ordering → Ordering → Type 0
Chain Ordering.lt Ordering.lt r = r ≡ Ordering.lt
Chain Ordering.lt Ordering.eq r = r ≡ Ordering.lt
Chain Ordering.lt Ordering.gt r = Unit
Chain Ordering.eq q r = r ≡ q
Chain Ordering.gt Ordering.lt r = Unit
Chain Ordering.gt Ordering.eq r = r ≡ Ordering.gt
Chain Ordering.gt Ordering.gt r = r ≡ Ordering.gt

-- The two orders of a pair are opposite, and comparisons chain.
pub record IsComparison {ℓ} {A : Type ℓ} (c : A → A → Ordering) : Type ℓ where
  pub opposite : (a b : A) → c b a ≡ minus (c a b)
  pub chain : (x y z : A) → Chain (c x y) (c y z) (c x z)

lt-chain : (q : Ordering) → Chain Ordering.lt q Ordering.lt
lt-chain Ordering.lt = refl
lt-chain Ordering.eq = refl
lt-chain Ordering.gt = tt

gt-chain : (q : Ordering) → Chain Ordering.gt q Ordering.gt
gt-chain Ordering.lt = tt
gt-chain Ordering.eq = refl
gt-chain Ordering.gt = refl

chain-lt : (p : Ordering) → Chain p Ordering.lt Ordering.lt
chain-lt Ordering.lt = refl
chain-lt Ordering.eq = refl
chain-lt Ordering.gt = tt

chain-gt : (p : Ordering) → Chain p Ordering.gt Ordering.gt
chain-gt Ordering.lt = tt
chain-gt Ordering.eq = refl
chain-gt Ordering.gt = refl

Chain-or_else :
    (p q r p' q' r' : Ordering)
    → Chain p q r
    → Chain p' q' r'
    → Chain (or_else p p') (or_else q q') (or_else r r')
Chain-or_else Ordering.lt Ordering.lt r p' q' r' h h' = rw h refl
Chain-or_else Ordering.lt Ordering.eq r p' q' r' h h' = rw h (lt-chain q')
Chain-or_else Ordering.lt Ordering.gt r p' q' r' h h' = tt
Chain-or_else Ordering.eq Ordering.lt r p' q' r' h h' = rw h (chain-lt p')
Chain-or_else Ordering.eq Ordering.eq r p' q' r' h h' = rw h h'
Chain-or_else Ordering.eq Ordering.gt r p' q' r' h h' = rw h (chain-gt p')
Chain-or_else Ordering.gt Ordering.lt r p' q' r' h h' = tt
Chain-or_else Ordering.gt Ordering.eq r p' q' r' h h' = rw h (gt-chain q')
Chain-or_else Ordering.gt Ordering.gt r p' q' r' h h' = rw h refl

Chain-minus : (p q r : Ordering) → Chain p q r → Chain (minus p) (minus q) (minus r)
Chain-minus Ordering.lt Ordering.lt r h = rw h refl
Chain-minus Ordering.lt Ordering.eq r h = rw h refl
Chain-minus Ordering.lt Ordering.gt r h = tt
Chain-minus Ordering.eq q r h = ap minus h
Chain-minus Ordering.gt Ordering.lt r h = tt
Chain-minus Ordering.gt Ordering.eq r h = rw h refl
Chain-minus Ordering.gt Ordering.gt r h = rw h refl

opposite-or_else : (p q : Ordering) → or_else (minus p) (minus q) ≡ minus (or_else p q)
opposite-or_else Ordering.lt q = refl
opposite-or_else Ordering.eq q = refl
opposite-or_else Ordering.gt q = refl

compare_opposite : (m n : ℕ) → Nat.compare n m ≡ minus (Nat.compare m n)
compare_opposite m n = ground arith

compare_chain :
    (x y z : ℕ) (p q : Ordering)
    → Nat.compare x y ≡ p
    → Nat.compare y z ≡ q
    → Chain p q (Nat.compare x z)
compare_chain x y z Ordering.lt Ordering.lt e f = ground arith
compare_chain x y z Ordering.lt Ordering.eq e f = ground arith
compare_chain x y z Ordering.lt Ordering.gt e f = tt
compare_chain x y z Ordering.eq Ordering.lt e f = ground arith
compare_chain x y z Ordering.eq Ordering.eq e f = ground arith
compare_chain x y z Ordering.eq Ordering.gt e f = ground arith
compare_chain x y z Ordering.gt Ordering.lt e f = tt
compare_chain x y z Ordering.gt Ordering.eq e f = ground arith
compare_chain x y z Ordering.gt Ordering.gt e f = ground arith

dictionary_opposite : (a b : Bytes) → dictionary b a ≡ minus (dictionary a b)
unfolding dictionary
dictionary_opposite [] [] = refl
dictionary_opposite [] (y ∷ b) = refl
dictionary_opposite (x ∷ a) [] = refl
dictionary_opposite (x ∷ a) (y ∷ b) =
    rw (compare_opposite x y, dictionary_opposite a b)
      (opposite-or_else (Nat.compare x y) (dictionary a b))

dictionary_chain : (a b c : Bytes) → Chain (dictionary a b) (dictionary b c) (dictionary a c)
unfolding dictionary
dictionary_chain [] [] [] = refl
dictionary_chain [] [] (z ∷ c) = refl
dictionary_chain [] (y ∷ b) [] = tt
dictionary_chain [] (y ∷ b) (z ∷ c) = lt-chain (or_else (Nat.compare y z) (dictionary b c))
dictionary_chain (x ∷ a) [] [] = refl
dictionary_chain (x ∷ a) [] (z ∷ c) = tt
dictionary_chain (x ∷ a) (y ∷ b) [] = chain-gt (or_else (Nat.compare x y) (dictionary a b))
dictionary_chain (x ∷ a) (y ∷ b) (z ∷ c) =
    Chain-or_else (Nat.compare x y) (Nat.compare y z) (Nat.compare x z) (dictionary a b)
      (dictionary b c) (dictionary a c)
      (compare_chain x y z (Nat.compare x y) (Nat.compare y z) refl refl) (dictionary_chain a b c)

-- Comparing what `f` makes of two lines.
by-IsComparison :
    (f : Bytes → Bytes) (c : Bytes → Bytes → Ordering)
    → ((a b : Bytes) → c a b ≡ dictionary (f a) (f b))
    → IsComparison c
by-IsComparison f c e = record {
  opposite = λ a b. rw (e a b, e b a) (dictionary_opposite (f a) (f b));
  chain = λ x y z. rw (e x y, e y z, e x z) (dictionary_chain (f x) (f y) (f z));
}

IsComparison-congr :
    (c d : Bytes → Bytes → Ordering)
    → ((a b : Bytes) → c a b ≡ d a b)
    → IsComparison d
    → IsComparison c
IsComparison-congr c d e h = record {
  opposite = λ a b. rw (e a b, e b a) (h.opposite a b);
  chain = λ x y z. rw (e x y, e y z, e x z) (h.chain x y z);
}

signed-IsComparison :
    (reverse : Bool) (c : Bytes → Bytes → Ordering)
    → IsComparison c
    → IsComparison (λ a b. signed reverse (c a b))
signed-IsComparison true c h = record {
  opposite = λ a b. ap minus (h.opposite a b);
  chain = λ x y z. Chain-minus (c x y) (c y z) (c x z) (h.chain x y z);
}
signed-IsComparison false c h = record {
  opposite = λ a b. h.opposite a b;
  chain = λ x y z. h.chain x y z;
}

or_else-IsComparison :
    (c d : Bytes → Bytes → Ordering)
    → IsComparison c
    → IsComparison d
    → IsComparison (λ a b. or_else (c a b) (d a b))
or_else-IsComparison c d h k = record {
  opposite = λ a b. rw (h.opposite a b, k.opposite a b) (opposite-or_else (c a b) (d a b));
  chain = λ x y z.
      Chain-or_else (c x y) (c y z) (c x z) (d x y) (d y z) (d x z) (h.chain x y z) (k.chain x y z);
}

text_diff-IsComparison : IsComparison text_diff
text_diff-IsComparison = by-IsComparison (λ a. a) text_diff text_diff-dictionary

-- No key makes a pointer into the first or the second line wrap.
abbrev pub AllFit : Options → Type 0
AllFit options = All (λ key. Fits options.place_a key × Fits options.place_b key) options.keylist

keys_diff-IsComparison :
    (options : Options) (keys : List KeyField)
    → All (λ key. Fits options.place_a key × Fits options.place_b key) keys
    → IsComparison (keys_diff options keys)
unfolding keys_diff
keys_diff-IsComparison options [] fit = record { opposite = λ a b. refl; chain = λ x y z. refl }
keys_diff-IsComparison options (key ∷ keys) ((fit_a, fit_b), fit) =
    let text = key_text options.blanks options.place_a options.tab key in
    let text_b = key_text options.blanks options.place_b options.tab key in
    or_else-IsComparison (λ a b. signed key.reverse (key_diff key (text a) (text_b b)))
      (keys_diff options keys)
      (signed-IsComparison key.reverse (λ a b. key_diff key (text a) (text_b b))
        (by-IsComparison (λ a. key_bytes key (text a)) (λ a b. key_diff key (text a) (text_b b))
          (λ a b.
            ap (key_diff key (text a)) (
              key_text-Fits options.blanks options.place_b options.place_a options.tab key b fit_b
                fit_a)
            ∙ key_diff-dictionary key (text a) (text b))))
      (keys_diff-IsComparison options keys fit)

last_resort-IsComparison :
    (options : Options) → IsComparison (λ a b. signed options.reverse (text_diff a b))
last_resort-IsComparison options =
    signed-IsComparison options.reverse text_diff text_diff-IsComparison

compare_at-IsComparison :
    (options : Options) (keys : List KeyField)
    → AllFit options
    → IsComparison (compare_at options keys)
unfolding compare_at keycompare
compare_at-IsComparison options [] fit = last_resort-IsComparison options
compare_at-IsComparison options (key ∷ keys) fit =
    let h = keys_diff-IsComparison options options.keylist fit in
    elim (Bool-cases (options.unique || options.stable)) [
      | inl u ↦
          IsComparison-congr (compare_at options (key ∷ keys)) (keycompare options)
            (λ a b. rw u refl) h
      | inr u ↦
          let default = λ (a b : Bytes). signed options.reverse (text_diff a b) in
          IsComparison-congr (compare_at options (key ∷ keys))
            (λ a b. or_else (keycompare options a b) (default a b)) (λ a b. rw u refl)
            (or_else-IsComparison (keycompare options) default h (last_resort-IsComparison options))
    ]

not_above : (s : Ordering) → at_most s ≡ false → at_most (minus s) ≡ true
not_above Ordering.lt h = cc h
not_above Ordering.eq h = refl
not_above Ordering.gt h = refl

at_most-Chain :
    (p q r : Ordering) → Chain p q r → at_most p ≡ true → at_most q ≡ true → at_most r ≡ true
at_most-Chain Ordering.lt Ordering.lt r h hp hq = ap at_most h
at_most-Chain Ordering.lt Ordering.eq r h hp hq = ap at_most h
at_most-Chain Ordering.lt Ordering.gt r h hp hq = cc hq
at_most-Chain Ordering.eq q r h hp hq = ap at_most h ∙ hq
at_most-Chain Ordering.gt q r h hp hq = cc hp

pub compare-IsComparison : (options : Options) → AllFit options → IsComparison (compare options)
unfolding compare
compare-IsComparison options fit = compare_at-IsComparison options options.keylist fit

-- In the C locale compare is total and transitive, for all options and all keys that compare bytes
-- and with which no pointer into a line wraps.
pub compare-IsPreorder : (options : Options) → AllFit options → IsPreorder (compare options)
compare-IsPreorder options fit =
    let h = compare-IsComparison options fit in
    record {
      total = λ a b gt. rw (h.opposite a b) (not_above (compare options a b) gt);
      trans = λ a b c.
          at_most-Chain (compare options a b) (compare options b c) (compare options a c)
            (h.chain a b c);
    }
