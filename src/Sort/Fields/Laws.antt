-- ===== src/Sort/Fields/Laws.antt =====
-- A key `-k N,N` with a field separator is the N-th field of the line.
use lmcas.Base.{
  ℕ, zero, suc, ◌+◌, ◌-◌, ◌<◌, ◌%◌, ◌^◌, Bool, true, false, not, List, [], ◌∷◌, ◌++◌, Option, some,
  Bytes, ltb, lt→ltb, ◌==◌, if◌then◌else◌, length, length-append, take, drop, get_or, ◌≡◌, refl,
  sym, ap, ◌∙◌, arith, Bool-cases, inl, inr,
}
use lmcas.Sort.Fields.{
  size_max, KeyField, Place, advance, skip_while, begin_words, begfield, end_words, limfield,
  key_begin, key_limit, key_text,
}

-- The fields of a line, which the separator ends.
push_byte : ℕ → List Bytes → List Bytes
push_byte c [] = (c ∷ []) ∷ []
push_byte c (field ∷ fields) = (c ∷ field) ∷ fields

unfoldable pub split_fields : ℕ → Bytes → List Bytes
unfolding push_byte
split_fields tab [] = [] ∷ []
split_fields tab (c ∷ line) =
    let fields = split_fields tab line in if c == tab then [] ∷ fields else push_byte c fields

module _ (tab : ℕ) where
  abbrev to_tab : Bytes → Bytes
  to_tab = skip_while (λ b. not (b == tab))

  push_byte-first :
      (c : ℕ) (fields : List Bytes) → get_or (push_byte c fields) 0 [] ≡ c ∷ get_or fields 0 []
  unfolding push_byte
  push_byte-first c [] = refl
  push_byte-first c (field ∷ fields) = refl

  push_byte-later :
      (c : ℕ) (fields : List Bytes) (n : ℕ)
      → get_or (push_byte c fields) (suc n) [] ≡ get_or fields (suc n) []
  unfolding push_byte
  push_byte-later c [] n = refl
  push_byte-later c (field ∷ fields) n = refl

  no_field : (n : ℕ) → get_or (split_fields tab []) n [] ≡ []
  unfolding split_fields
  no_field zero = refl
  no_field (suc n) = refl

  first_field : (line : Bytes) → line ≡ get_or (split_fields tab line) 0 [] ++ to_tab line
  unfolding split_fields skip_while
  first_field [] = refl
  first_field (c ∷ line) = elim (Bool-cases (c == tab)) [
    | inl e ↦ rw e refl
    | inr e ↦
        rw (e, push_byte-first c (split_fields tab line))
          (ap (λ (l : Bytes). c ∷ l) (first_field line))
  ]

  later_field_step :
      (c : ℕ) (line : Bytes) (n : ℕ)
      → (c == tab) ≡ false
      → get_or (split_fields tab (c ∷ line)) (suc n) [] ≡ get_or (split_fields tab line) (suc n) []
  unfolding split_fields
  later_field_step c line n e = rw e (push_byte-later c (split_fields tab line) n)

  later_field :
      (line : Bytes) (n : ℕ)
      → get_or (split_fields tab line) (suc n) []
        ≡ get_or (split_fields tab (drop 1 (to_tab line))) n []
  unfolding skip_while
  later_field [] n = no_field (suc n) ∙ sym (no_field n)
  later_field (c ∷ line) n = elim (Bool-cases (c == tab)) [
    | inl e ↦ unfold split_fields in rw e refl
    | inr e ↦ later_field_step c line n e ∙ rw e (later_field line n)
  ]

  -- What begin_words finds is the field, and then what end_words finds.
  between :
      (blanks : ℕ → Bool) (n : ℕ) (line : Bytes)
      → begin_words blanks (some tab) n line
        ≡ get_or (split_fields tab line) n [] ++ end_words blanks (some tab) false (suc n) line
  unfolding begin_words end_words
  between blanks zero [] = sym (ap (λ (l : Bytes). l ++ []) (no_field 0))
  between blanks zero (c ∷ line) = first_field (c ∷ line)
  between blanks (suc n) [] = sym (ap (λ (l : Bytes). l ++ []) (no_field (suc n)))
  between blanks (suc n) (c ∷ line) =
      let more : (suc n == 0) ≡ false = ground arith in
      rw (more, end_words, later_field (c ∷ line) n) (between blanks n (drop 1 (to_tab (c ∷ line))))

take-length {ℓ} : {A : Type ℓ} (xs ys : List A) → take (length xs) (xs ++ ys) ≡ xs
take-length [] ys = refl
take-length (x ∷ xs) ys = ap (λ (l : List _). x ∷ l) (take-length xs ys)

take_front {ℓ} :
    {A : Type ℓ} (xs ys : List A) → take (length (xs ++ ys) - length ys) (xs ++ ys) ≡ xs
take_front xs ys =
    let count : length (xs ++ ys) - length ys ≡ length xs = omega (arith, length-append xs ys) in
    rw count (take-length xs ys)

advance_none : (place : Place) (ptr : Bytes) → advance place 0 ptr ≡ ptr
unfolding advance
advance_none place ptr =
    let fits : ltb (place.address ptr + 0) (2 ^ 64) ≡ true =
      lt→ltb (place.address ptr + 0) (2 ^ 64) (omega (arith, place.is_address ptr)) in
    rw fits refl

-- The numbers of characters of a key make no pointer into a line in that place wrap.
abbrev pub Fits : Place → KeyField → Type 0
Fits place key =
    (ptr : Bytes)
    → (place.address ptr + key.schar < 2 ^ 64) × (place.address ptr + key.echar < 2 ^ 64)

advance-drop :
    (place : Place) (count : ℕ) (ptr : Bytes)
    → place.address ptr + count < 2 ^ 64
    → advance place count ptr ≡ drop count ptr
unfolding advance
advance-drop place count ptr h = rw (lt→ltb (place.address ptr + count) (2 ^ 64) h) refl

-- A key that fits in two places is the same in both.
pub key_text-Fits :
    (blanks : ℕ → Bool) (place place' : Place) (tab : Option ℕ) (key : KeyField) (line : Bytes)
    → Fits place key
    → Fits place' key
    → key_text blanks place tab key line ≡ key_text blanks place' tab key line
unfolding key_text key_begin key_limit begfield limfield
key_text-Fits blanks place place' tab key line h h' =
    let first = begin_words blanks tab key.sword line in
    let begins = if key.skipsblanks then skip_while blanks first else first in
    let last =
      end_words blanks tab (not (key.echar == 0))
        (if key.echar == 0 then (key.eword + 1) % 2 ^ 64 else key.eword) line in
    let ends = if key.skipeblanks then skip_while blanks last else last in
    rw
      (
        advance-drop place key.schar begins ((h begins).0),
        advance-drop place' key.schar begins ((h' begins).0),
        advance-drop place key.echar ends ((h ends).1),
        advance-drop place' key.echar ends ((h' ends).1),
      )
      refl

-- The key `-k N,N` (sword and eword are N - 1, no characters are given and no blanks skipped) with
-- the field separator `tab` is the N-th field of the line, and empty when the line has fewer.
pub key_text-split_fields :
    (blanks : ℕ → Bool) (place : Place) (tab : ℕ) (key : KeyField) (line : Bytes) (n : ℕ)
    → n < size_max
    → key.sword ≡ n
    → key.schar ≡ 0
    → key.eword ≡ n
    → key.echar ≡ 0
    → key.skipsblanks ≡ false
    → key_text blanks place (some tab) key line ≡ get_or (split_fields tab line) n []
unfolding key_text key_begin key_limit begfield limfield
key_text-split_fields blanks place tab key line n small s sc e ec sb =
    let given : (n == size_max) ≡ false = ground arith in
    let next : (n + 1) % 2 ^ 64 ≡ suc n = omega arith in
    rw (s, sc, e, ec, sb)
      (rw
        (
          given,
          next,
          advance_none place (begin_words blanks (some tab) n line),
          between tab blanks n line,
        )
        (take_front (get_or (split_fields tab line) n [])
          (end_words blanks (some tab) false (suc n) line)))
