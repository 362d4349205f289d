-- ===== src/Sort/Order/Stable.antt =====
-- The stable order: sorted, a permutation, and equals in the order of the input.
use Prim.Native.Nat.{Ordering}
use lmcas.Base.{
  ◌≡◌, refl, ap, ◌∙◌, Bool, true, false, ◌&&◌, List, [], ◌∷◌, keep, if◌then◌else◌, All, arith,
  Bool-cases, inl, inr,
}
use mathlib.Core.List.{Perm}
use mathlib.Core.List.Perm
use lmcas.Sort.Order.{IsPreorder, le, insert_line, stable_sort}

-- Each line is at most every later one.
abbrev pub IsSorted {ℓ} : {A : Type ℓ} → (A → A → Ordering) → List A → Type 0
IsSorted compare [] = Unit
IsSorted compare (x ∷ xs) = All (λ y. le compare x y ≡ true) xs × IsSorted compare xs

-- Neither is below the other.
abbrev pub equal {ℓ} : {A : Type ℓ} → (A → A → Ordering) → A → A → Bool
equal compare a b = le compare a b && le compare b a

module _ {ℓ} {A : Type ℓ} (compare : A → A → Ordering) (order : IsPreorder compare) where
  All-weaken :
      (x y : A) (ys : List A)
      → le compare x y ≡ true
      → All (λ z. le compare y z ≡ true) ys
      → All (λ z. le compare x z ≡ true) ys
  All-weaken x y [] h a = tt
  All-weaken x y (z ∷ ys) h (az, a) = (order.trans x y z h az, All-weaken x y ys h a)

  All-insert_line :
      (P : A → Type 0) (x : A) (ys : List A) → P x → All P ys → All P (insert_line compare x ys)
  unfolding insert_line
  All-insert_line P x [] px a = (px, tt)
  All-insert_line P x (y ∷ ys) px (py, a) = elim (Bool-cases (le compare x y)) [
    | inl e ↦ rw e (px, (py, a))
    | inr e ↦ rw e (py, All-insert_line P x ys px a)
  ]

  insert_line-IsSorted :
      (x : A) (ys : List A) → IsSorted compare ys → IsSorted compare (insert_line compare x ys)
  unfolding insert_line
  insert_line-IsSorted x [] h = (tt, tt)
  insert_line-IsSorted x (y ∷ ys) (hy, h) = elim (Bool-cases (le compare x y)) [
    | inl e ↦ rw e ((e, All-weaken x y ys e hy), (hy, h))
    | inr e ↦ rw e (
      All-insert_line (λ z. le compare y z ≡ true) x ys (order.total x y e) hy,
      insert_line-IsSorted x ys h,
    )
  ]

  pub stable_sort-IsSorted : (xs : List A) → IsSorted compare (stable_sort compare xs)
  unfolding stable_sort
  stable_sort-IsSorted [] = tt
  stable_sort-IsSorted (x ∷ xs) =
      insert_line-IsSorted x (stable_sort compare xs) (stable_sort-IsSorted xs)

  insert_line-perm : (x : A) (ys : List A) → Perm (insert_line compare x ys) (x ∷ ys)
  unfolding insert_line
  insert_line-perm x [] = Perm.refl (x ∷ [])
  insert_line-perm x (y ∷ ys) = elim (Bool-cases (le compare x y)) [
    | inl e ↦ rw e (Perm.refl (x ∷ y ∷ ys))
    | inr e ↦ rw e (Perm.trans (Perm.cons y (insert_line-perm x ys)) (Perm.swap x y ys))
  ]

  pub stable_sort-perm : (xs : List A) → Perm (stable_sort compare xs) xs
  unfolding stable_sort
  stable_sort-perm [] = Perm.refl []
  stable_sort-perm (x ∷ xs) =
      Perm.trans (insert_line-perm x (stable_sort compare xs)) (Perm.cons x (stable_sort-perm xs))

  equal_back : (a x : A) → equal compare a x ≡ true → le compare x a ≡ true
  equal_back a x e = grind (arith, e)

  passed_twice :
      (a x y : A) → equal compare a x ≡ true → le compare x y ≡ false → ¬ (le compare a y ≡ true)
  passed_twice a x y e f r = cc (order.trans x a y (equal_back a x e) r)

  -- A line that is equal to `a` and not below `y` makes `y` unequal to `a`.
  passed :
      (a x y : A) → equal compare a x ≡ true → le compare x y ≡ false → equal compare a y ≡ false
  passed a x y e f = elim (Bool-cases (le compare a y)) [
    | inl r ↦ absurd (passed_twice a x y e f r)
    | inr r ↦ rw r refl
  ]

  keep-insert_line :
      (a x : A) (ys : List A)
      → keep (equal compare a) (insert_line compare x ys) ≡ keep (equal compare a) (x ∷ ys)
  unfolding insert_line
  keep-insert_line a x [] = refl
  keep-insert_line a x (y ∷ ys) = elim (Bool-cases (le compare x y)) [
    | inl e ↦ rw e refl
    | inr e ↦
        rw (e, keep-insert_line a x ys)
          (elim (Bool-cases (equal compare a x)) [
            | inl h ↦ rw (h, passed a x y h e) refl
            | inr h ↦ rw h refl
          ])
  ]

  -- The lines that are equal to any one line keep their order.
  pub stable_sort-keep :
      (a : A) (xs : List A)
      → keep (equal compare a) (stable_sort compare xs) ≡ keep (equal compare a) xs
  unfolding stable_sort
  stable_sort-keep a [] = refl
  stable_sort-keep a (x ∷ xs) =
      keep-insert_line a x (stable_sort compare xs)
      ∙ ap (λ (t : List A). if equal compare a x then x ∷ t else t) (stable_sort-keep a xs)
