-- ===== src/Sort/Fields.antt =====
-- annotated_Dataset-1/sort.c: where a key begins and ends in a line (begfield, limfield).
--
-- A pointer into a line is the list of the bytes from it to LIM, the end of the line's text, so
-- `ptr < lim` is that the list has a byte. `tab` is none for TAB_DEFAULT. The table of blanks, which
-- the locale decides, is the argument `blanks`. The lengths that a user can give for a key reach
-- SIZE_MAX, so `ptr + schar` may wrap; then the pointer is in front of `ptr`, and where the line
-- lies in memory decides what is read from there: the argument `place`.
use lmcas.Base.{
  ℕ, zero, suc, ◌+◌, ◌-◌, ◌%◌, ◌^◌, ◌<◌, Bool, true, false, not, ◌&&◌, ◌||◌, List, [], ◌∷◌, Option,
  none, some, Bytes, ltb, ◌==◌, if◌then◌else◌, length, take, drop,
}
pub mod Laws

abbrev pub size_max : ℕ
size_max = 2 ^ 64 - 1

pub record KeyField : Type 0 where
  pub sword : ℕ
  pub schar : ℕ
  pub eword : ℕ
  pub echar : ℕ
  pub ignore : Option (ℕ → Bool)
  pub translate : Option (ℕ → ℕ)
  pub skipsblanks : Bool
  pub skipeblanks : Bool
  pub reverse : Bool

-- `while (ptr < lim && test (*ptr)) ++ptr;`
unfoldable pub skip_while : (ℕ → Bool) → Bytes → Bytes
skip_while test [] = []
skip_while test (c ∷ ptr) = let next = skip_while test ptr in if test c then next else c ∷ ptr

-- Where a line lies in memory: the address of a pointer into it, and what is read from the pointer
-- that wraps when a number is added to it, up to LIM. An address has 64 bits. Only the wrap depends
-- on addresses: a pointer is otherwise the bytes from it to LIM.
pub record Place : Type 0 where
  pub address : Bytes → ℕ
  pub wrapped : ℕ → Bytes → Bytes
  pub is_address : (ptr : Bytes) → address ptr < 2 ^ 64

-- `MIN (lim, ptr + count)`
unfoldable pub advance : Place → ℕ → Bytes → Bytes
advance place count ptr =
    if ltb (place.address ptr + count) (2 ^ 64) then drop count ptr else place.wrapped count ptr

module _ (blanks : ℕ → Bool) where
  -- Past one field of the kind that blanks separate.
  unfoldable pub skip_word : Bytes → Bytes
  unfolding skip_while
  skip_word ptr = skip_while (λ c. not (blanks c)) (skip_while blanks ptr)

  -- The loop of begfield over SWORD.
  unfoldable pub begin_words : Option ℕ → ℕ → Bytes → Bytes
  unfolding skip_while skip_word
  begin_words tab zero ptr = ptr
  begin_words tab (suc sword) [] = []
  begin_words none (suc sword) (c ∷ ptr) = begin_words none sword (skip_word (c ∷ ptr))
  begin_words (some tab) (suc sword) (c ∷ ptr) =
      begin_words (some tab) sword (drop 1 (skip_while (λ b. not (b == tab)) (c ∷ ptr)))

  -- The loop of limfield over EWORD, in which the count is one less after the test.
  unfoldable pub end_words : Option ℕ → Bool → ℕ → Bytes → Bytes
  unfolding skip_while skip_word
  end_words tab more zero ptr = ptr
  end_words tab more (suc eword) [] = []
  end_words none more (suc eword) (c ∷ ptr) = end_words none more eword (skip_word (c ∷ ptr))
  end_words (some tab) more (suc eword) (c ∷ ptr) =
      let field_end = skip_while (λ b. not (b == tab)) (c ∷ ptr) in
      end_words (some tab) more eword
        (if not (eword == 0) || more then drop 1 field_end else field_end)

  module _ (place : Place) where
    unfoldable pub begfield : Option ℕ → KeyField → Bytes → Bytes
    unfolding begin_words skip_while advance
    begfield tab key line =
        let ptr = begin_words tab key.sword line in
        advance place key.schar (if key.skipsblanks then skip_while blanks ptr else ptr)

    unfoldable pub limfield : Option ℕ → KeyField → Bytes → Bytes
    unfolding end_words skip_while advance
    limfield tab key line =
        let eword = if key.echar == 0 then (key.eword + 1) % 2 ^ 64 else key.eword in
        let ptr = end_words tab (not (key.echar == 0)) eword line in
        if key.echar == 0
        then ptr
        else advance place key.echar (if key.skipeblanks then skip_while blanks ptr else ptr)

    -- The start and the limit of a key: size_max is a position that was not given.
    unfoldable pub key_begin : Option ℕ → KeyField → Bytes → Bytes
    unfolding begfield skip_while
    key_begin tab key line =
        if key.sword == size_max
        then if key.skipsblanks then skip_while blanks line else line
        else begfield tab key line

    unfoldable pub key_limit : Option ℕ → KeyField → Bytes → Bytes
    unfolding limfield
    key_limit tab key line = if key.eword == size_max then [] else limfield tab key line

    -- The bytes from the start to the limit: none when the limit is in front of the start.
    unfoldable pub key_text : Option ℕ → KeyField → Bytes → Bytes
    unfolding key_begin key_limit
    key_text tab key line =
        let text = key_begin tab key line in
        take (length text - length (key_limit tab key line)) text
