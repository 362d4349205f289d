-- ===== src/Fold/Laws.antt =====
-- fold_file ends, only adds line breaks, and leaves no line too wide.
pub mod Folded
pub mod Rescan
use lmcas.Base.{
  ℕ, zero, suc, ◌+◌, ◌-◌, ◌≤◌, ◌<◌, Bool, true, false, not, ◌||◌, ◌&&◌, List, [], ◌∷◌, ◌++◌, Option,
  none, some, Bytes, newline, ltb, leb, ◌==◌, if◌then◌else◌, length, keep, ◌≡◌, refl, sym, ap, ◌∙◌,
  arith, Bool-cases, Option-cases, inl, inr, append_assoc,
}
use lmcas.Fold.{adjust_column, columns_from, split_last_blank}

-- `ys` is `xs` with line breaks added.
pub data AddsBreaks : Bytes → Bytes → Type 0 where
  nothing : AddsBreaks [] []
  same : (c : ℕ) {xs ys : Bytes} → AddsBreaks xs ys → AddsBreaks (c ∷ xs) (c ∷ ys)
  broken : (c : ℕ) {xs ys : Bytes} → c ≡ newline → AddsBreaks xs ys → AddsBreaks xs (c ∷ ys)

pub AddsBreaks_refl : (xs : Bytes) → AddsBreaks xs xs
AddsBreaks_refl [] = AddsBreaks.nothing
AddsBreaks_refl (c ∷ xs) = AddsBreaks.same c (AddsBreaks_refl xs)

pub AddsBreaks-append :
    {xs ys us vs : Bytes} → AddsBreaks xs ys → AddsBreaks us vs → AddsBreaks (xs ++ us) (ys ++ vs)
AddsBreaks-append AddsBreaks.nothing k = k
AddsBreaks-append (AddsBreaks.same c h) k = AddsBreaks.same c (AddsBreaks-append h k)
AddsBreaks-append (AddsBreaks.broken c e h) k = AddsBreaks.broken c e (AddsBreaks-append h k)

pub AddsBreaks_trans : {xs ys zs : Bytes} → AddsBreaks xs ys → AddsBreaks ys zs → AddsBreaks xs zs
AddsBreaks_trans h AddsBreaks.nothing = h
AddsBreaks_trans h (AddsBreaks.broken c e k) = AddsBreaks.broken c e (AddsBreaks_trans h k)
AddsBreaks_trans (AddsBreaks.same c h) (AddsBreaks.same c' k) =
    AddsBreaks.same c (AddsBreaks_trans h k)
AddsBreaks_trans (AddsBreaks.broken c e h) (AddsBreaks.same c' k) =
    AddsBreaks.broken c e (AddsBreaks_trans h k)

-- A line break between two parts.
pub AddsBreaks-break : (xs ys : Bytes) → AddsBreaks (xs ++ ys) ((xs ++ newline ∷ []) ++ ys)
AddsBreaks-break [] ys = AddsBreaks.broken newline refl (AddsBreaks_refl ys)
AddsBreaks-break (x ∷ xs) ys = AddsBreaks.same x (AddsBreaks-break xs ys)

-- In the rest of a line behind column `column`, no character but the first of the line goes past
-- the width. `fresh` is whether the line has no character yet. A line break starts a new line.
unfoldable pub fits : Bool → ℕ → Bool → ℕ → Bytes → Bool
fits count_bytes width fresh column [] = true
fits count_bytes width fresh column (c ∷ text) =
    let next = adjust_column count_bytes column c in
    let line = fits count_bytes width false next text in
    let new_line = fits count_bytes width true 0 text in
    if c == newline then new_line else (fresh || leb next width) && line

-- No byte is a line break.
abbrev pub one_line : Bytes → Bool
one_line [] = true
one_line (c ∷ line) = let rest = one_line line in if c == newline then false else rest

abbrev pub is_empty : Bytes → Bool
is_empty [] = true
is_empty (c ∷ line) = false

module _ (count_bytes : Bool) where
  adjust_column_mono :
      (a b c : ℕ) → a ≤ b → adjust_column count_bytes a c ≤ adjust_column count_bytes b c
  unfolding adjust_column
  adjust_column_mono a b c h = ground arith

  pub columns_from-append :
      (column : ℕ) (xs ys : Bytes)
      → columns_from count_bytes column (xs ++ ys)
        ≡ columns_from count_bytes (columns_from count_bytes column xs) ys
  unfolding columns_from
  columns_from-append column [] ys = refl
  columns_from-append column (c ∷ xs) ys =
      columns_from-append (adjust_column count_bytes column c) xs ys

module _ (count_bytes : Bool) (width : ℕ) where
  -- A line that fits still fits when it starts further to the left.
  pub fits_mono :
      (fresh : Bool) (a b : ℕ) (line : Bytes)
      → a ≤ b
      → fits count_bytes width false b line ≡ true
      → fits count_bytes width fresh a line ≡ true
  unfolding fits
  fits_mono fresh a b [] h f = refl
  fits_mono fresh a b (c ∷ line) h f = ground (
    arith,
    f,
    adjust_column_mono count_bytes a b c h,
    fits_mono false (adjust_column count_bytes a c) (adjust_column count_bytes b c) line,
  )

  -- Behind a part of a line.
  pub fits-append :
      (fresh : Bool) (column : ℕ) (xs ys : Bytes)
      → one_line xs ≡ true
      → fits count_bytes width fresh column (xs ++ ys) ≡ (
          fits count_bytes width fresh column xs
          && fits count_bytes width (fresh && is_empty xs) (columns_from count_bytes column xs) ys)
  unfolding fits columns_from
  fits-append fresh column [] ys h = ground arith
  fits-append fresh column (c ∷ xs) ys h =
      ground (arith, h, fits-append false (adjust_column count_bytes column c) xs ys)

-- What split_last_blank splits.
pub record Splits (line front back : Bytes) : Type 0 where
  pub whole : line ≡ front ++ back
  pub shorter : length back < length line

Splits-cons :
    (c : ℕ) (line front back : Bytes) → Splits line front back → Splits (c ∷ line) (c ∷ front) back
Splits-cons c line front back h = record {
  whole = ap (λ (l : Bytes). c ∷ l) h.whole;
  shorter = omega (arith, h.shorter);
}

step_later :
    (isblank : ℕ → Bool) (c : ℕ) (line front back : Bytes)
    → split_last_blank isblank line ≡ some (front, back)
    → split_last_blank isblank (c ∷ line) ≡ some (c ∷ front, back)
unfolding split_last_blank
step_later isblank c line front back e = rw (e, split_last_blank) refl

step_last :
    (isblank : ℕ → Bool) (c : ℕ) (line : Bytes)
    → split_last_blank isblank line ≡ none
    → split_last_blank isblank (c ∷ line) ≡ (if isblank c then some (c ∷ [], line) else none)
unfolding split_last_blank
step_last isblank c line e = rw (e, split_last_blank) refl

same_pair :
    (a b front back : Bytes)
    → ◌≡◌ {A = Option (Bytes × Bytes)} (some (a, b)) (some (front, back))
    → (a ≡ front) × (b ≡ back)
same_pair a b front back e = (cc e, cc e)

no_blank :
    (isblank : ℕ → Bool) (front back : Bytes) → ¬ (split_last_blank isblank [] ≡ some (front, back))
unfolding split_last_blank
no_blank isblank front back e = cc e

pub split_last_blank-Splits :
    (isblank : ℕ → Bool) (line front back : Bytes)
    → split_last_blank isblank line ≡ some (front, back)
    → Splits line front back
split_last_blank-Splits isblank [] front back e = absurd (no_blank isblank front back e)
split_last_blank-Splits isblank (c ∷ line) front back e =
    elim (Option-cases (split_last_blank isblank line)) [
      | inr ((f, b), later) ↦
          let (sf, sb) =
            same_pair (c ∷ f) b front back (sym (step_later isblank c line f b later) ∙ e) in
          rw (← sf, ← sb) (Splits-cons c line f b (split_last_blank-Splits isblank line f b later))
      | inl none_later ↦ elim (Bool-cases (isblank c)) [
        | inl yes_blank ↦
            let (sf, sb) =
              same_pair (c ∷ []) line front back
                (sym (rw yes_blank at (step_last isblank c line none_later)) ∙ e) in
            rw (← sf, ← sb) (record { whole = refl; shorter = omega arith })
        | inr not_blank ↦ cc (e, rw not_blank at (step_last isblank c line none_later))
      ]
    ]
