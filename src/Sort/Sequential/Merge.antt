-- ===== src/Sort/Sequential/Merge.antt =====
-- mergelines puts the merge of both parts into T and touches no other cell.
use Prim.Native.Nat.{Ordering}
use lmcas.Base.{
  ℕ, zero, suc, ◌+◌, ◌-◌, ◌/◌, ◌≤◌, ◌<◌, true, false, List, [], ◌∷◌, ◌++◌, ◌≡◌, refl, sym, ap, ◌∙◌,
  ◌⊎◌, inl, inr, arith, Bool-cases, ◌==◌,
}
use lmcas.Sort.Order.{le, merge, merge_nil, merge_left, merge_right}
use lmcas.Sort.Sequential.{store, copy_lo, merge_loop, mergelines}

-- Cell `q` is none of the `n` cells from `p` on.
abbrev pub IsOutside : ℕ → ℕ → ℕ → Type 0
IsOutside q p n = (q < p) ⊎ (p + n ≤ q)

left_zero : (n : ℕ) → 0 + n ≡ n
left_zero n = omega arith

right_zero : (n : ℕ) → n + 0 ≡ n
right_zero n = omega arith

module _ {ℓ} {A : Type ℓ} where
  -- The `n` lines from `p` on, in the order of the output.
  unfoldable pub segment : (ℕ → A) → ℕ → ℕ → List A
  segment array p zero = []
  segment array p (suc n) = array p ∷ segment array (p + 1) n

  pub segment_congr :
      (f g : ℕ → A) (p n : ℕ)
      → ((q : ℕ) → p ≤ q → q < p + n → f q ≡ g q)
      → segment f p n ≡ segment g p n
  unfolding segment
  segment_congr f g p zero same = refl
  segment_congr f g p (suc n) same =
      let rest = segment_congr f g (p + 1) n (λ q from to. same q (omega arith) (omega arith)) in
      rw (rest, same p (omega arith) (omega arith)) refl

  -- A segment by its first line and the rest.
  segment_step :
      (f : ℕ → A) (p count n : ℕ) (x : A) (rest : List A)
      → count ≡ suc n
      → f p ≡ x
      → segment f (p + 1) n ≡ rest
      → segment f p count ≡ x ∷ rest
  unfolding segment
  segment_step f p count n x rest c h r = rw (c, h, r) refl

  pub segment-append :
      (f : ℕ → A) (p m n : ℕ) → segment f p (m + n) ≡ segment f p m ++ segment f (p + m) n
  unfolding segment
  segment-append f p zero n = rw (right_zero p, left_zero n) refl
  segment-append f p (suc m) n =
      let here : p + suc m ≡ (p + 1) + m = omega arith in
      rw here
        (segment_step f p (suc m + n) (m + n) _ _ (omega arith) refl (segment-append f (p + 1) m n))

  pub store_here : (f : ℕ → A) (p : ℕ) (v : A) → store f p v p ≡ v
  store_here f p v = let same : (p == p) ≡ true = ground arith in rw same refl

  pub store_other : (f : ℕ → A) (p : ℕ) (v : A) (q : ℕ) → IsOutside q p 1 → store f p v q ≡ f q
  store_other f p v q out = let other : (q == p) ≡ false = ground arith in rw other refl

  segment-store :
      (f : ℕ → A) (t : ℕ) (v : A) (p n : ℕ) → t < p → segment (store f t v) p n ≡ segment f p n
  segment-store f t v p n before =
      segment_congr (store f t v) f p n (λ q from to. store_other f t v q (inr (omega arith)))

  copy_lo-outside :
      (nlo : ℕ) (dest : ℕ → A) (t : ℕ) (lo_array : ℕ → A) (lo q : ℕ)
      → IsOutside q t nlo
      → copy_lo nlo dest t lo_array lo q ≡ dest q
  unfolding copy_lo
  copy_lo-outside zero dest t lo_array lo q out = refl
  copy_lo-outside (suc nlo) dest t lo_array lo q out =
      copy_lo-outside nlo (store dest t (lo_array lo)) (t + 1) lo_array (lo + 1) q (omega arith)
      ∙ store_other dest t (lo_array lo) q (omega arith)

  copy_lo-segment :
      (nlo : ℕ) (dest : ℕ → A) (t : ℕ) (lo_array : ℕ → A) (lo : ℕ)
      → segment (copy_lo nlo dest t lo_array lo) t nlo ≡ segment lo_array lo nlo
  unfolding copy_lo segment
  copy_lo-segment zero dest t lo_array lo = refl
  copy_lo-segment (suc nlo) dest t lo_array lo =
      let next = store dest t (lo_array lo) in
      let head =
        copy_lo-outside nlo next (t + 1) lo_array (lo + 1) t (inl (omega arith))
        ∙ store_here dest t (lo_array lo) in
      rw (head, copy_lo-segment nlo next (t + 1) lo_array (lo + 1)) refl

module _ {ℓ} {A : Type ℓ} (compare : A → A → Ordering) where
  loop_left :
      (nlo nhi : ℕ) (dest : ℕ → A) (t : ℕ) (lo_array : ℕ → A) (lo hi : ℕ)
      → le compare (lo_array lo) (dest hi) ≡ true
      → merge_loop compare (suc nlo) (suc nhi) dest t lo_array lo hi
        ≡ merge_loop compare nlo (suc nhi) (store dest t (lo_array lo)) (t + 1) lo_array (lo + 1) hi
  unfolding merge_loop
  loop_left nlo nhi dest t lo_array lo hi e = rw (e, merge_loop) refl

  loop_right :
      (nlo nhi : ℕ) (dest : ℕ → A) (t : ℕ) (lo_array : ℕ → A) (lo hi : ℕ)
      → le compare (lo_array lo) (dest hi) ≡ false
      → merge_loop compare (suc nlo) (suc nhi) dest t lo_array lo hi
        ≡ merge_loop compare (suc nlo) nhi (store dest t (dest hi)) (t + 1) lo_array lo (hi + 1)
  unfolding merge_loop
  loop_right nlo nhi dest t lo_array lo hi e = rw (e, merge_loop) refl

  merge_loop-outside :
      (nlo nhi : ℕ) (dest : ℕ → A) (t : ℕ) (lo_array : ℕ → A) (lo hi q : ℕ)
      → IsOutside q t (nlo + nhi)
      → merge_loop compare nlo nhi dest t lo_array lo hi q ≡ dest q
  merge_loop-outside zero nhi dest t lo_array lo hi q out = unfold merge_loop in refl
  merge_loop-outside (suc nlo) zero dest t lo_array lo hi q out =
      unfold merge_loop in copy_lo-outside (suc nlo) dest t lo_array lo q (omega arith)
  merge_loop-outside (suc nlo) (suc nhi) dest t lo_array lo hi q out =
      let left =
        merge_loop-outside nlo (suc nhi) (store dest t (lo_array lo)) (t + 1) lo_array (lo + 1) hi q
          (omega arith) in
      let right =
        merge_loop-outside (suc nlo) nhi (store dest t (dest hi)) (t + 1) lo_array lo (hi + 1) q
          (omega arith) in
      elim (Bool-cases (le compare (lo_array lo) (dest hi))) [
        | inl e ↦
            ap (λ (f : ℕ → A). f q) (loop_left nlo nhi dest t lo_array lo hi e)
            ∙ left
            ∙ store_other dest t (lo_array lo) q (omega arith)
        | inr e ↦
            ap (λ (f : ℕ → A). f q) (loop_right nlo nhi dest t lo_array lo hi e)
            ∙ right
            ∙ store_other dest t (dest hi) q (omega arith)
      ]

  -- HI begins where the cells for LO end.
  merge_loop-segment :
      (nlo nhi : ℕ) (dest : ℕ → A) (t : ℕ) (lo_array : ℕ → A) (lo hi : ℕ)
      → hi ≡ t + nlo
      → segment (merge_loop compare nlo nhi dest t lo_array lo hi) t (nlo + nhi)
        ≡ merge compare (segment lo_array lo nlo) (segment dest hi nhi)
  merge_loop-segment zero nhi dest t lo_array lo hi at =
      let here : hi ≡ t = omega (arith, at) in
      rw (here, left_zero nhi) (unfold merge_loop segment merge in refl)
  merge_loop-segment (suc nlo) zero dest t lo_array lo hi at = rw (right_zero (suc nlo)) (
      unfold merge_loop segment in
      copy_lo-segment (suc nlo) dest t lo_array lo
      ∙ sym (merge_nil compare (segment lo_array lo (suc nlo))))
  merge_loop-segment (suc nlo) (suc nhi) dest t lo_array lo hi at =
      elim (Bool-cases (le compare (lo_array lo) (dest hi))) [
        | inl e ↦
            let next = store dest t (lo_array lo) in
            let rest =
              merge_loop-segment nlo (suc nhi) next (t + 1) lo_array (lo + 1) hi (omega (arith, at))
              ∙ ap (merge compare (segment lo_array (lo + 1) nlo))
                  (segment-store dest t (lo_array lo) hi (suc nhi) (omega (arith, at))) in
            let head =
              merge_loop-outside nlo (suc nhi) next (t + 1) lo_array (lo + 1) hi t
                (inl (omega arith))
              ∙ store_here dest t (lo_array lo) in
            rw (loop_left nlo nhi dest t lo_array lo hi e) (
              segment_step _ t (suc nlo + suc nhi) (nlo + suc nhi) _ _ (omega arith) head rest
              ∙ (unfold segment in
                  sym (
                    merge_left compare (lo_array lo) (dest hi) (segment lo_array (lo + 1) nlo)
                      (segment dest (hi + 1) nhi) e)))
        | inr e ↦
            let next = store dest t (dest hi) in
            let rest =
              merge_loop-segment (suc nlo) nhi next (t + 1) lo_array lo (hi + 1) (omega (arith, at))
              ∙ ap (merge compare (segment lo_array lo (suc nlo)))
                  (segment-store dest t (dest hi) (hi + 1) nhi (omega (arith, at))) in
            let head =
              merge_loop-outside (suc nlo) nhi next (t + 1) lo_array lo (hi + 1) t
                (inl (omega arith))
              ∙ store_here dest t (dest hi) in
            rw (loop_right nlo nhi dest t lo_array lo hi e) (
              segment_step _ t (suc nlo + suc nhi) (suc nlo + nhi) _ _ (omega arith) head rest
              ∙ (unfold segment in
                  sym (
                    merge_right compare (lo_array lo) (dest hi) (segment lo_array (lo + 1) nlo)
                      (segment dest (hi + 1) nhi) e)))
      ]

  pub mergelines-segment :
      (dest : ℕ → A) (t nlines : ℕ) (lo_array : ℕ → A) (lo : ℕ)
      → segment (mergelines compare dest t nlines lo_array lo) t nlines
        ≡ merge compare
            (segment lo_array lo (nlines / 2))
            (segment dest (t + nlines / 2) (nlines - nlines / 2))
  mergelines-segment dest t nlines lo_array lo =
      let both : nlines ≡ nlines / 2 + (nlines - nlines / 2) = omega arith in
      ap (segment (mergelines compare dest t nlines lo_array lo) t) both
      ∙ (unfold mergelines in
          merge_loop-segment (nlines / 2) (nlines - nlines / 2) dest t lo_array lo (t + nlines / 2)
            refl)

  pub mergelines-outside :
      (dest : ℕ → A) (t nlines : ℕ) (lo_array : ℕ → A) (lo q : ℕ)
      → IsOutside q t nlines
      → mergelines compare dest t nlines lo_array lo q ≡ dest q
  mergelines-outside dest t nlines lo_array lo q out =
      unfold mergelines in
      merge_loop-outside (nlines / 2) (nlines - nlines / 2) dest t lo_array lo (t + nlines / 2) q
        (omega arith)
