-- ===== src/Head/Start/Laws.antt =====
-- The first lines of a text, and the results of a read.
use lmcas.Base.{
  ℕ, zero, suc, ◌-◌, ◌≤◌, ◌<◌, true, false, [], ◌∷◌, ◌++◌, Option, none, some, Bytes, ◌==◌,
  if◌then◌else◌, length, length-append, take, ◌≡◌, refl, ap, arith, Bool-cases, ◌⊎◌, inl, inr,
}
use lmcas.Head.Input.{Reader}
use lmcas.Head.Start.{scan_lines}

-- The lines of a text up to the `n`-th line end.
unfoldable pub first_lines : ℕ → ℕ → Bytes → Bytes
first_lines line_end n [] = []
first_lines line_end n (c ∷ text) =
    let same = first_lines line_end n text in
    let fewer = first_lines line_end (n - 1) text in
    if n == 0 then [] else c ∷ (if c == line_end then fewer else same)

pub take-append :
    (n : ℕ) (xs ys : Bytes) → length xs ≤ n → take n (xs ++ ys) ≡ xs ++ take (n - length xs) ys
take-append n [] ys h = let none_taken : n - 0 ≡ n = omega arith in rw none_taken refl
take-append zero (x ∷ xs) ys h = absurd (omega arith)
take-append (suc n) (x ∷ xs) ys h =
    let less : suc n - suc (length xs) ≡ n - length xs = omega arith in
    rw less (ap (λ (l : Bytes). x ∷ l) (take-append n xs ys (omega arith)))

pub first_lines_zero : (line_end : ℕ) (text : Bytes) → first_lines line_end 0 text ≡ []
unfolding first_lines
first_lines_zero line_end [] = refl
first_lines_zero line_end (c ∷ text) = refl

pub first_lines_end :
    (line_end n c : ℕ) (text : Bytes)
    → (n == 0) ≡ false
    → (c == line_end) ≡ true
    → first_lines line_end n (c ∷ text) ≡ c ∷ first_lines line_end (n - 1) text
unfolding first_lines
first_lines_end line_end n c text e f = rw (e, f) refl

pub first_lines_char :
    (line_end n c : ℕ) (text : Bytes)
    → (n == 0) ≡ false
    → (c == line_end) ≡ false
    → first_lines line_end n (c ∷ text) ≡ c ∷ first_lines line_end n text
unfolding first_lines
first_lines_char line_end n c text e f = rw (e, f) refl

pub scan_lines-first_lines :
    (line_end n : ℕ) (chunk others : Bytes)
    → (n == 0) ≡ false
    → first_lines line_end n (chunk ++ others)
      ≡ take ((scan_lines line_end n chunk).0) chunk
        ++ first_lines line_end ((scan_lines line_end n chunk).1) others
unfolding scan_lines
scan_lines-first_lines line_end n [] others pos = refl
scan_lines-first_lines line_end n (c ∷ chunk) others pos = elim (Bool-cases (c == line_end)) [
  | inl e ↦ elim (Bool-cases (n - 1 == 0)) [
    | inl last ↦
        let none_left : n - 1 ≡ 0 = ground (arith, last) in
        rw (first_lines_end line_end n c (chunk ++ others) pos e, e, last)
          (rw
            (
              none_left,
              first_lines_zero line_end (chunk ++ others),
              first_lines_zero line_end others,
            )
            refl)
    | inr more ↦
        rw (first_lines_end line_end n c (chunk ++ others) pos e, e, more)
          (ap (λ (l : Bytes). c ∷ l) (scan_lines-first_lines line_end (n - 1) chunk others more))
  ]
  | inr e ↦
      rw (first_lines_char line_end n c (chunk ++ others) pos e, e)
        (ap (λ (l : Bytes). c ∷ l) (scan_lines-first_lines line_end n chunk others pos))
]

-- The results of a read: a failure, no byte, or some.
pub read_cases {ℓ} :
    {F : Type ℓ} (o : Option (Bytes × F))
    → (o ≡ none)
      ⊎ (((fd : F) × (o ≡ some ([], fd)))
          ⊎ ((c : ℕ) × (others : Bytes) × (fd : F) × (o ≡ some (c ∷ others, fd))))
read_cases none = inl refl
read_cases (some ([], fd)) = inr (inl (fd, refl))
read_cases (some (c ∷ others, fd)) = inr (inr (c, others, fd, refl))

pub take_nothing : (n : ℕ) → take {A = ℕ} n [] ≡ []
take_nothing zero = refl
take_nothing (suc n) = refl

module _ (reader : Reader) (bufsiz : ℕ) (pos : 0 < bufsiz) where
  open reader use {Fd, rest, safe_read}

  -- A read that gave bytes leaves fewer to come.
  pub fewer_left :
      (count fuel c : ℕ) (others : Bytes) (fd fd' : Fd)
      → safe_read count fd ≡ some (c ∷ others, fd')
      → length (rest fd) < suc fuel
      → length (rest fd') < fuel
  fewer_left count fuel c others fd fd' r enough = omega (
    arith,
    ap length (reader.gives_next count fd fd' (c ∷ others) r),
    length-append (c ∷ others) (rest fd'),
    enough,
  )
