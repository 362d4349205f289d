-- ===== src/Sort/Order.antt =====
-- What sorting means: the stable order of a list, by insertion, and the merge of two lists.
pub mod Stable
use Prim.Native.Nat.{Ordering}
use lmcas.Base.{
  ℕ, ◌≡◌, ◌≢◌, refl, sym, ap, ◌∙◌, Bool, true, false, not, ◌&&◌, List, [], ◌∷◌, ◌++◌, keep,
  if◌then◌else◌, All, arith, Bool-cases, inl, inr,
}
use mathlib.Core.List.{Perm}
use mathlib.Core.List.Perm

-- The sign of the int that a comparison returns. `at_most` is `compare (a, b) <= 0`.
abbrev pub at_most : Ordering → Bool
at_most Ordering.lt = true
at_most Ordering.eq = true
at_most Ordering.gt = false

-- What a sort needs of its comparison: a total preorder.
pub record IsPreorder {ℓ} {A : Type ℓ} (compare : A → A → Ordering) : Type ℓ where
  pub total : (a b : A) → at_most (compare a b) ≡ false → at_most (compare b a) ≡ true
  pub trans :
      (a b c : A)
      → at_most (compare a b) ≡ true
      → at_most (compare b c) ≡ true
      → at_most (compare a c) ≡ true

module _ {ℓ} {A : Type ℓ} (compare : A → A → Ordering) where
  abbrev pub le : A → A → Bool
  le a b = at_most (compare a b)

  -- `x` goes in front of the first member that is not below it.
  unfoldable pub insert_line : A → List A → List A
  insert_line x [] = x ∷ []
  insert_line x (y ∷ ys) = let later = y ∷ insert_line x ys in if le x y then x ∷ y ∷ ys else later

  unfoldable pub stable_sort : List A → List A
  unfolding insert_line
  stable_sort [] = []
  stable_sort (x ∷ xs) = insert_line x (stable_sort xs)

  -- The first list goes first among equals.
  unfoldable pub merge : List A → List A → List A
  merge [] ys = ys
  merge (x ∷ xs) [] = x ∷ xs
  merge (x ∷ xs) (y ∷ ys) = elim (le x y) [
    | true ↦ x ∷ merge xs (y ∷ ys)
    | false ↦ y ∷ merge (x ∷ xs) ys
  ]

  pub merge_nil : (xs : List A) → merge xs [] ≡ xs
  unfolding merge
  merge_nil [] = refl
  merge_nil (x ∷ xs) = refl

  pub merge_left :
      (x y : A) (xs ys : List A) → le x y ≡ true → merge (x ∷ xs) (y ∷ ys) ≡ x ∷ merge xs (y ∷ ys)
  unfolding merge
  merge_left x y xs ys e = rw (e, merge)

  pub merge_right :
      (x y : A) (xs ys : List A) → le x y ≡ false → merge (x ∷ xs) (y ∷ ys) ≡ y ∷ merge (x ∷ xs) ys
  unfolding merge
  merge_right x y xs ys e = rw (e, merge)

module _ {ℓ} {A : Type ℓ} (compare : A → A → Ordering) (order : IsPreorder compare) where
  first :
      (x y : A) (ys : List A) → le compare x y ≡ true → insert_line compare x (y ∷ ys) ≡ x ∷ y ∷ ys
  unfolding insert_line
  first x y ys e = rw e

  later :
      (x y : A) (ys : List A)
      → le compare x y ≡ false
      → insert_line compare x (y ∷ ys) ≡ y ∷ insert_line compare x ys
  unfolding insert_line
  later x y ys e = rw e

  le_trans_false :
      (x y z : A) → le compare x y ≡ true → le compare x z ≡ false → le compare y z ≡ false
  le_trans_false x y z p q = elim (Bool-cases (le compare y z)) [
    | inl r ↦ cc (order.trans x y z p r)
    | inr r ↦ r
  ]

  -- `x` goes in front of a merge if it goes in front of both lists.
  first_of_merge :
      (x z y : A) (xs ys : List A)
      → le compare x z ≡ true
      → le compare x y ≡ true
      → insert_line compare x (merge compare (z ∷ xs) (y ∷ ys))
        ≡ x ∷ merge compare (z ∷ xs) (y ∷ ys)
  first_of_merge x z y xs ys p q = elim (Bool-cases (le compare z y)) [
    | inl r ↦ rw (merge_left compare z y xs ys r) (first x z (merge compare xs (y ∷ ys)) p)
    | inr r ↦ rw (merge_right compare z y xs ys r) (first x y (merge compare (z ∷ xs) ys) q)
  ]

  merge-insert_line :
      (x : A) (xs ys : List A)
      → merge compare (insert_line compare x xs) ys ≡ insert_line compare x (merge compare xs ys)
  merge-insert_line x [] [] = unfold merge insert_line in refl
  merge-insert_line x [] (y ∷ ys) =
      let ih = merge-insert_line x [] ys in
      let alone : (ys : List A) → merge compare [] ys ≡ ys = unfold merge in λ ys. refl in
      let single : insert_line compare x [] ≡ x ∷ [] = unfold insert_line in refl in
      rw (alone (y ∷ ys), single)
        (elim (Bool-cases (le compare x y)) [
          | inl e ↦
              merge_left compare x y [] ys e
              ∙ ap (λ (t : List A). x ∷ t) (alone (y ∷ ys))
              ∙ sym (first x y ys e)
          | inr e ↦
              merge_right compare x y [] ys e
              ∙ ap (λ (t : List A). y ∷ t) (rw (single, alone ys) at ih)
              ∙ sym (later x y ys e)
        ])
  merge-insert_line x (z ∷ xs) [] =
      merge_nil compare (insert_line compare x (z ∷ xs))
      ∙ ap (insert_line compare x) (sym (merge_nil compare (z ∷ xs)))
  merge-insert_line x (z ∷ xs) (y ∷ ys) =
      let down = merge-insert_line x xs (y ∷ ys) in
      let across = merge-insert_line x (z ∷ xs) ys in
      elim (Bool-cases (le compare x z)) [
        | inl p ↦ rw (first x z xs p) (elim (Bool-cases (le compare x y)) [
          | inl q ↦ merge_left compare x y (z ∷ xs) ys q ∙ sym (first_of_merge x z y xs ys p q)
          | inr q ↦
              let r = le_trans_false x z y p q in
              merge_right compare x y (z ∷ xs) ys q
              ∙ ap (λ (t : List A). y ∷ t) (rw (first x z xs p) at across)
              ∙ sym (
                  ap (insert_line compare x) (merge_right compare z y xs ys r)
                  ∙ later x y (merge compare (z ∷ xs) ys) q)
        ])
        | inr p ↦ rw (later x z xs p) (elim (Bool-cases (le compare z y)) [
          | inl r ↦
              merge_left compare z y (insert_line compare x xs) ys r
              ∙ ap (λ (t : List A). z ∷ t) down
              ∙ sym (
                  ap (insert_line compare x) (merge_left compare z y xs ys r)
                  ∙ later x z (merge compare xs (y ∷ ys)) p)
          | inr r ↦
              let q : le compare x y ≡ false = elim (Bool-cases (le compare x y)) [
                | inl s ↦ cc (order.trans x y z s (order.total z y r))
                | inr s ↦ s
              ] in
              merge_right compare z y (insert_line compare x xs) ys r
              ∙ ap (λ (t : List A). y ∷ t) (rw (later x z xs p) at across)
              ∙ sym (
                  ap (insert_line compare x) (merge_right compare z y xs ys r)
                  ∙ later x y (merge compare (z ∷ xs) ys) q)
        ])
      ]

  -- Merging the sorts of two lists is sorting one behind the other.
  pub merge-stable_sort :
      (xs ys : List A)
      → merge compare (stable_sort compare xs) (stable_sort compare ys)
        ≡ stable_sort compare (xs ++ ys)
  unfolding stable_sort
  merge-stable_sort [] ys = unfold merge in refl
  merge-stable_sort (x ∷ xs) ys =
      merge-insert_line x (stable_sort compare xs) (stable_sort compare ys)
      ∙ ap (insert_line compare x) (merge-stable_sort xs ys)
