-- ===== src/Sort/Compare.antt =====
-- annotated_Dataset-1/sort.c: keycompare and compare, in the C locale and for keys that compare
-- their bytes (none of the options n, g, h, M, R and V). An int is its sign, an Ordering.
use Prim.Native.Nat.{Ordering}
use Prim.Native.Nat
use lmcas.Base.{
  ℕ, zero, suc, Bool, true, false, not, ◌||◌, List, [], ◌∷◌, Option, none, some, Bytes, ◌==◌,
  if◌then◌else◌, length,
}
use lmcas.Sort.Fields.{KeyField, Place, skip_while, key_text}
pub mod Laws

-- `reverse ? -diff : diff`
abbrev pub minus : Ordering → Ordering
minus Ordering.lt = Ordering.gt
minus Ordering.eq = Ordering.eq
minus Ordering.gt = Ordering.lt

abbrev pub signed : Bool → Ordering → Ordering
signed reverse diff = if reverse then minus diff else diff

-- `diff ? diff : other`
abbrev pub or_else : Ordering → Ordering → Ordering
or_else Ordering.lt other = Ordering.lt
or_else Ordering.eq other = other
or_else Ordering.gt other = Ordering.gt

-- `memcmp (a, b, MIN (alen, blen))`
unfoldable pub memcmp : Bytes → Bytes → Ordering
memcmp [] b = Ordering.eq
memcmp (x ∷ a) [] = Ordering.eq
memcmp (x ∷ a) (y ∷ b) = or_else (Nat.compare x y) (memcmp a b)

-- `alen < blen ? -1 : alen != blen`
unfoldable pub length_diff : Bytes → Bytes → Ordering
length_diff a b = Nat.compare (length a) (length b)

-- The default comparison of compare, before `reverse`, and the branch of keycompare that neither
-- ignores nor translates bytes.
unfoldable pub text_diff : Bytes → Bytes → Ordering
unfolding memcmp length_diff
text_diff [] [] = Ordering.eq
text_diff [] (y ∷ b) = Ordering.lt
text_diff (x ∷ a) [] = Ordering.gt
text_diff (x ∷ a) (y ∷ b) = or_else (memcmp (x ∷ a) (y ∷ b)) (length_diff (x ∷ a) (y ∷ b))

-- The loop of the branch that translates, up to its end.
unfoldable pub translated_loop : (ℕ → ℕ) → Bytes → Bytes → Ordering
translated_loop translate [] b = Ordering.eq
translated_loop translate (x ∷ a) [] = Ordering.eq
translated_loop translate (x ∷ a) (y ∷ b) =
    or_else (Nat.compare (translate x) (translate y)) (translated_loop translate a b)

unfoldable pub translated_diff : (ℕ → ℕ) → Bytes → Bytes → Ordering
unfolding translated_loop length_diff
translated_diff translate [] [] = Ordering.eq
translated_diff translate [] (y ∷ b) = Ordering.lt
translated_diff translate (x ∷ a) [] = Ordering.gt
translated_diff translate (x ∷ a) (y ∷ b) =
    or_else (translated_loop translate (x ∷ a) (y ∷ b)) (length_diff (x ∷ a) (y ∷ b))

-- CMP_WITH_IGNORE, one round of its loop for each byte of the first key and one more.
unfoldable pub ignore_loop : (ℕ → Bool) → (ℕ → ℕ) → ℕ → Bytes → Bytes → Ordering
unfolding skip_while
ignore_loop ignore translate zero a b = Ordering.eq
ignore_loop ignore translate (suc rounds) a b = elim (skip_while ignore a) [
  | [] ↦ elim (skip_while ignore b) [ [] ↦ Ordering.eq | y ∷ textb ↦ Ordering.lt ]
  | x ∷ texta ↦ elim (skip_while ignore b) [
    | [] ↦ Ordering.gt
    | y ∷ textb ↦
        or_else (Nat.compare (translate x) (translate y))
          (ignore_loop ignore translate rounds texta textb)
  ]
]

-- One round of keycompare: which of the loops compares the key.
unfoldable pub key_diff : KeyField → Bytes → Bytes → Ordering
unfolding text_diff translated_diff ignore_loop
key_diff key a b = elim key.ignore [
  | some ignore ↦ elim key.translate [
    | some translate ↦ ignore_loop ignore translate (suc (length a)) a b
    | none ↦ ignore_loop ignore (λ c. c) (suc (length a)) a b
  ]
  | none ↦ elim key.translate [
    | some translate ↦ translated_diff translate a b
    | none ↦ text_diff a b
  ]
]

-- The options that the comparison reads. `tab` is none for TAB_DEFAULT. With them, where its first
-- and its second line lie, which matters when a pointer of a key wraps.
pub record Options : Type 0 where
  pub place_a : Place
  pub place_b : Place
  pub blanks : ℕ → Bool
  pub tab : Option ℕ
  pub keylist : List KeyField
  pub unique : Bool
  pub stable : Bool
  pub reverse : Bool

module _ (options : Options) where
  unfoldable pub keys_diff : List KeyField → Bytes → Bytes → Ordering
  unfolding key_diff key_text
  keys_diff [] a b = Ordering.eq
  keys_diff (key ∷ next) a b =
      or_else
        (signed key.reverse (
          key_diff key (key_text options.blanks options.place_a options.tab key a)
            (key_text options.blanks options.place_b options.tab key b)))
        (keys_diff next a b)

  unfoldable pub keycompare : Bytes → Bytes → Ordering
  unfolding keys_diff
  keycompare a b = keys_diff options.keylist a b

-- compare, by whether there is a key.
unfoldable pub compare_at : Options → List KeyField → Bytes → Bytes → Ordering
unfolding keycompare text_diff
compare_at options [] a b = signed options.reverse (text_diff a b)
compare_at options (key ∷ next) a b =
    if options.unique || options.stable
    then keycompare options a b
    else or_else (keycompare options a b) (signed options.reverse (text_diff a b))

unfoldable pub compare : Options → Bytes → Bytes → Ordering
unfolding compare_at
compare options a b = compare_at options options.keylist a b
