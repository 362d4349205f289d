-- ===== src/Basename/Laws.antt =====
-- remove_suffix takes the suffix off, unless it is the whole name or not at its end.
use mathlib.Core.List.{reverse, reverse-append, reverse-reverse}
use lmcas.Base.{
  ℕ, true, [], ◌∷◌, ◌++◌, none, some, Bytes, ◌==◌, ◌≡◌, ◌≢◌, ◌⊎◌, refl, sym, ap, ◌∙◌, arith,
  Bool-cases, inl, inr,
}
use lmcas.Basename.{compare_back, remove_suffix}

-- A loop that reaches the beginning of the suffix first.
compare_back-append : (sp r : Bytes) (c : ℕ) → compare_back (sp ++ c ∷ r) sp ≡ some (c ∷ r)
unfolding compare_back
compare_back-append [] r c = refl
compare_back-append (d ∷ sp) r c =
    let same : (d == d) ≡ true = ground arith in rw same (compare_back-append sp r c)

-- What is left when the loop is done, or that it returned.
compare_cases :
    (np sp : Bytes)
    → (compare_back np sp ≡ none)
      ⊎ ((c : ℕ) × (r : Bytes) × (compare_back np sp ≡ some (c ∷ r)) × (np ≡ sp ++ c ∷ r))
unfolding compare_back
compare_cases [] sp = inl refl
compare_cases (c ∷ np) [] = inr (c, np, refl, refl)
compare_cases (c ∷ np) (d ∷ sp) = elim (Bool-cases (c == d)) [
  | inr e ↦ inl (rw e refl)
  | inl e ↦
      let same : c ≡ d = ground (arith, e) in
      elim (compare_cases np sp) [
        | inl n ↦ inl (rw e n)
        | inr (x, r, s, t) ↦ inr (x, r, rw e s, rw (same, t) refl)
      ]
]

left_alone :
    (name suffix : Bytes)
    → compare_back (reverse name) (reverse suffix) ≡ none
    → remove_suffix name suffix ≡ name
unfolding remove_suffix
left_alone name suffix e = rw (remove_suffix, e) refl

cut :
    (name suffix r : Bytes)
    → compare_back (reverse name) (reverse suffix) ≡ some r
    → remove_suffix name suffix ≡ reverse r
unfolding remove_suffix
cut name suffix r e = rw (remove_suffix, e) refl

-- The front of a name before its suffix.
front_of : (name suffix r : Bytes) → reverse name ≡ reverse suffix ++ r → name ≡ reverse r ++ suffix
front_of name suffix r e =
    sym (reverse-reverse name)
    ∙ ap reverse e
    ∙ reverse-append (reverse suffix) r
    ∙ ap (λ (t : Bytes). reverse r ++ t) (reverse-reverse suffix)

not_empty : (c : ℕ) (r : Bytes) → reverse (c ∷ r) ≢ []
not_empty c r e = let clash : c ∷ r ≡ [] = sym (reverse-reverse (c ∷ r)) ∙ ap reverse e in cc clash

reached_behind :
    (np sp front_back : Bytes) → front_back ≢ [] → np ≡ sp ++ front_back → compare_back np sp ≢ none
reached_behind np sp [] h e n = h refl
reached_behind np sp (c ∷ r) h e n =
    let clash : some (c ∷ r) ≡ none =
      sym (compare_back-append sp r c) ∙ sym (ap (λ (t : Bytes). compare_back t sp) e) ∙ n in
    cc clash

reached :
    (front name suffix : Bytes)
    → front ≢ []
    → name ≡ front ++ suffix
    → compare_back (reverse name) (reverse suffix) ≢ none
reached front name suffix h e n =
    reached_behind (reverse name) (reverse suffix) (reverse front)
      (λ z. h (sym (reverse-reverse front) ∙ ap reverse z))
      (ap reverse e ∙ reverse-append front suffix) n

-- Either the name is a front that is not empty and the suffix, and the front is left; or it is no
-- such thing, and stays as it is.
pub remove_suffix_cases :
    (name suffix : Bytes)
    → ((front : Bytes) × (front ≢ [])
        × (name ≡ front ++ suffix)
        × (remove_suffix name suffix ≡ front))
      ⊎ ((remove_suffix name suffix ≡ name)
          × ((front : Bytes) → front ≢ [] → name ≢ front ++ suffix))
remove_suffix_cases name suffix = elim (compare_cases (reverse name) (reverse suffix)) [
  | inl n ↦ inr (left_alone name suffix n, λ front h e. reached front name suffix h e n)
  | inr (c, r, s, t) ↦
      inl
        (reverse (c ∷ r), not_empty c r, front_of name suffix (c ∷ r) t, cut name suffix (c ∷ r) s)
]
