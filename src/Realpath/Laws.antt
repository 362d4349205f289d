-- ===== src/Realpath/Laws.antt =====
-- path_prefix holds of a path and of the paths below it.
use lmcas.Base.{
  ℕ, true, false, [], ◌∷◌, ◌++◌, Bytes, ◌==◌, ◌≡◌, ◌≢◌, ◌↔◌, ◌⊎◌, refl, ap, arith, Bool-cases, inl,
  inr,
}
use lmcas.Realpath.{is_at_slash, prefix_loop, path_prefix}

-- The path is the prefix, or goes on behind it with a slash.
abbrev pub IsBelow : Bytes → Bytes → Type 0
IsBelow prefix path = (path ≡ prefix) ⊎ ((others : Bytes) × (path ≡ prefix ++ b'/' ∷ others))

IsBelow-char :
    (c d : ℕ) (prefix path : Bytes) → c ≡ d → IsBelow prefix path → IsBelow (c ∷ prefix) (d ∷ path)
IsBelow-char c d prefix path e (inl h) = inl (rw (e, h) refl)
IsBelow-char c d prefix path e (inr (others, h)) = inr (others, rw (e, h) refl)

prefix_loop-IsBelow : (prefix path : Bytes) → prefix_loop prefix path ≡ true → IsBelow prefix path
unfolding prefix_loop
prefix_loop-IsBelow [] [] h = inl refl
prefix_loop-IsBelow [] (d ∷ path) h = inr (path, ap (λ (k : ℕ). k ∷ path) (ground (arith, h)))
prefix_loop-IsBelow (c ∷ prefix) [] h = cc h
prefix_loop-IsBelow (c ∷ prefix) (d ∷ path) h = elim (Bool-cases (c == d)) [
  | inl e ↦
      IsBelow-char c d prefix path (ground (arith, e))
        (prefix_loop-IsBelow prefix path (ground (arith, e, h)))
  | inr e ↦ absurd (ground (arith, e, h))
]

prefix_loop_same :
    (prefix others : Bytes)
    → (prefix_loop prefix prefix ≡ true) × (prefix_loop prefix (prefix ++ b'/' ∷ others) ≡ true)
unfolding prefix_loop
prefix_loop_same [] others = (refl, refl)
prefix_loop_same (c ∷ prefix) others =
    let same : (c == c) ≡ true = ground arith in rw same (prefix_loop_same prefix others)

prefix_loop_iff : (prefix path : Bytes) → (prefix_loop prefix path ≡ true) ↔ IsBelow prefix path
prefix_loop_iff prefix path = (prefix_loop-IsBelow prefix path, is_below)
  where
    is_below : IsBelow prefix path → prefix_loop prefix path ≡ true
    is_below (inl e) = rw e ((prefix_loop_same prefix []).0)
    is_below (inr (others, e)) = rw e ((prefix_loop_same prefix others).1)

-- The root has the paths below it that do not begin with two slashes, and a double slash those that
-- do. The paths are those behind their first slash.
abbrev pub IsUnder : Bytes → Bytes → Type 0
IsUnder [] path = is_at_slash path ≡ false
IsUnder (c ∷ []) path =
    ((c ≡ b'/') × (is_at_slash path ≡ true)) ⊎ ((c ≢ b'/') × IsBelow (c ∷ []) path)
IsUnder (c ∷ d ∷ prefix) path = IsBelow (c ∷ d ∷ prefix) path

-- path_prefix holds exactly of the paths that are the prefix or below it; of the root these are the
-- paths that do not begin with two slashes, and of the double slash those that do.
pub path_prefix_iff : (prefix path : Bytes) → (path_prefix prefix path ≡ true) ↔ IsUnder prefix path
unfolding path_prefix
path_prefix_iff [] path = ground arith
path_prefix_iff (c ∷ []) path = elim (Bool-cases (c == b'/')) [
  | inl e ↦
      let slash : c ≡ b'/' = ground (arith, e) in
      rw e (
        λ h. inl (slash, h),
        λ u. elim u [ inl (_, h) ↦ h | inr (no_slash, _) ↦ absurd (no_slash slash) ],
      )
  | inr e ↦
      let no_slash : c ≢ b'/' = λ s. ground (arith, e, s) in
      let (below, above) = prefix_loop_iff (c ∷ []) path in
      rw e (
        λ h. inr (no_slash, below h),
        λ u. elim u [ inl (slash, _) ↦ absurd (no_slash slash) | inr (_, h) ↦ above h ],
      )
]
path_prefix_iff (c ∷ d ∷ prefix) path = prefix_loop_iff (c ∷ d ∷ prefix) path
