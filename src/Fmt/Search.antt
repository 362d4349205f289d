-- ===== src/Fmt/Search.antt =====
-- The inner loop of fmt_paragraph finds the cheapest of all the breaks that the width allows.
use lmcas.Base.{
  ℕ, zero, suc, ◌+◌, ◌≤◌, ◌<◌, Bool, true, false, List, [], ◌∷◌, ltb, length, drop, ◌≡◌, refl, sym,
  subst, ◌∙◌, arith, Bool-cases, ◌⊎◌, inl, inr,
}
use lmcas.Fmt.{Word, Globals, Choice, break_cost, consider, try_breaks}

-- The length of a line that ends `k` words behind a word, which the line of `len` columns ends with.
unfoldable pub line_end : ℕ → ℕ → List Word → ℕ → ℕ
line_end len space next zero = len
line_end len space [] (suc k) = len
line_end len space (w ∷ others) (suc k) = line_end (len + (space + w.length_of)) w.space others k

line_end_grows : (len space : ℕ) (next : List Word) (k : ℕ) → len ≤ line_end len space next k
unfolding line_end
line_end_grows len space next zero = omega arith
line_end_grows len space [] (suc k) = omega arith
line_end_grows len space (w ∷ others) (suc k) =
    omega (arith, line_end_grows (len + (space + w.length_of)) w.space others k)

-- The line may end there: it has but one word, or is below the width.
unfoldable pub CanEnd : ℕ → ℕ → ℕ → List Word → ℕ → Type 0
CanEnd max_width len space next k =
    (k ≤ length next) × ((k ≡ 0) ⊎ (line_end len space next k < max_width))

module _ (globals : Globals) (at_start : Bool) where
  -- What it costs to end the line there.
  abbrev pub cost_of : ℕ → ℕ → List Word → ℕ → ℕ
  cost_of len space next k = break_cost globals at_start (drop k next) (line_end len space next k)

  -- The choice that ends the line there.
  abbrev pub choice_of : ℕ → ℕ → List Word → ℕ → Choice
  choice_of len space next k = record {
    best = cost_of len space next k;
    break_before = length (drop k next);
    len = line_end len space next k;
  }

  -- The choice among all ends of the line, when there was one already.
  pub record IsBest (before : Choice) (len space : ℕ) (next : List Word) (choice : Choice)
      : Type 0 where
    pub least :
        (k : ℕ) → CanEnd globals.max_width len space next k → choice.best ≤ cost_of len space next k
    pub no_worse : choice.best ≤ before.best
    pub chosen :
        (choice ≡ before)
        ⊎ ((k : ℕ) × CanEnd globals.max_width len space next k
            × (choice ≡ choice_of len space next k))

  -- Considering one break takes the cheaper.
  consider_cases :
      (choice : Choice) (w : List Word) (len space : ℕ)
      → ((consider globals at_start choice w len ≡ choice_of len space w 0)
          × (cost_of len space w 0 ≤ choice.best))
        ⊎ ((consider globals at_start choice w len ≡ choice)
            × (choice.best ≤ cost_of len space w 0))
  unfolding consider line_end
  consider_cases choice w len space =
      elim (Bool-cases (ltb (break_cost globals at_start w len) choice.best)) [
        | inl e ↦ inl (rw e refl, ground (arith, e))
        | inr e ↦ inr (rw e refl, ground (arith, e))
      ]

  none_further :
      (choice : Choice) (len space : ℕ) (next : List Word)
      → ((k : ℕ) → CanEnd globals.max_width len space next k → k ≡ 0)
      → IsBest choice len space next (consider globals at_start choice next len)
  none_further choice len space next only = elim (consider_cases choice next len space) [
    | inl (e, h) ↦ rw e (record {
      least = λ k can.
          subst (λ j. cost_of len space next 0 ≤ cost_of len space next j) (sym (only k can))
            (omega arith);
      no_worse = h;
      chosen = inr (0, (unfold CanEnd in (omega arith, inl refl)), refl);
    })
    | inr (e, h) ↦ rw e (record {
      least = λ k can. subst (λ j. choice.best ≤ cost_of len space next j) (sym (only k can)) h;
      no_worse = omega arith;
      chosen = inl refl;
    })
  ]

  -- An end further on is one of the longer line.
  CanEnd-suc :
      (len space : ℕ) (w : Word) (others : List Word) (k : ℕ)
      → CanEnd globals.max_width len space (w ∷ others) (suc k)
      → CanEnd globals.max_width (len + (space + w.length_of)) w.space others k
  unfolding CanEnd line_end
  CanEnd-suc len space w others k (h, inl e) = absurd (omega (arith, e))
  CanEnd-suc len space w others k (h, inr l) = (omega (arith, h), inr l)

  CanEnd-longer :
      (len space : ℕ) (w : Word) (others : List Word) (k : ℕ)
      → len + (space + w.length_of) < globals.max_width
      → CanEnd globals.max_width (len + (space + w.length_of)) w.space others k
      → CanEnd globals.max_width len space (w ∷ others) (suc k)
  unfolding CanEnd line_end
  CanEnd-longer len space w others k fitting (h, inl e) = (omega (arith, h), inr (rw e fitting))
  CanEnd-longer len space w others k fitting (h, inr l) = (omega (arith, h), inr l)

  further_choice :
      (before choice r : Choice) (len space : ℕ) (w : Word) (others : List Word)
      → len + (space + w.length_of) < globals.max_width
      → choice.best ≤ cost_of len space (w ∷ others) 0
      → choice.best ≤ before.best
      → (choice ≡ before) ⊎ (choice ≡ choice_of len space (w ∷ others) 0)
      → IsBest choice (len + (space + w.length_of)) w.space others r
      → IsBest before len space (w ∷ others) r
  unfolding line_end
  further_choice before choice r len space w others fitting at_once better from h = record {
    least = λ k can. least_of k can;
    no_worse = omega (arith, h.no_worse, better);
    chosen = elim h.chosen [
      | inl same ↦ elim from [
        | inl e ↦ inl (same ∙ e)
        | inr e ↦ inr (0, (unfold CanEnd in (omega arith, inl refl)), same ∙ e)
      ]
      | inr (k, can, e) ↦ inr (suc k, CanEnd-longer len space w others k fitting can, e)
    ];
  }
    where
      least_of :
          (k : ℕ)
          → CanEnd globals.max_width len space (w ∷ others) k
          → r.best ≤ cost_of len space (w ∷ others) k
      least_of zero can = omega (arith, h.no_worse, at_once)
      least_of (suc k) can = h.least k (CanEnd-suc len space w others k can)

  goes_on :
      (choice : Choice) (len space : ℕ) (w : Word) (others : List Word)
      → ltb (len + (space + w.length_of)) globals.max_width ≡ true
      → try_breaks globals at_start choice space len (w ∷ others)
        ≡ try_breaks globals at_start
            (consider globals at_start choice (w ∷ others) len)
            w.space
            (len + (space + w.length_of))
            others
  unfolding try_breaks
  goes_on choice len space w others e = rw e refl

  stops :
      (choice : Choice) (len space : ℕ) (w : Word) (others : List Word)
      → ltb (len + (space + w.length_of)) globals.max_width ≡ false
      → try_breaks globals at_start choice space len (w ∷ others)
        ≡ consider globals at_start choice (w ∷ others) len
  unfolding try_breaks
  stops choice len space w others e = rw e refl

  too_long :
      (len space : ℕ) (w : Word) (others : List Word)
      → globals.max_width ≤ len + (space + w.length_of)
      → (k : ℕ) → CanEnd globals.max_width len space (w ∷ others) k
      → k ≡ 0
  unfolding CanEnd line_end
  too_long len space w others long zero can = refl
  too_long len space w others long (suc k) (h, inl e) = e
  too_long len space w others long (suc k) (h, inr l) =
      absurd (omega (arith, long, l, line_end_grows (len + (space + w.length_of)) w.space others k))

  pub try_breaks-IsBest :
      (choice : Choice) (len space : ℕ) (next : List Word)
      → IsBest choice len space next (try_breaks globals at_start choice space len next)
  try_breaks-IsBest choice len space [] =
      unfold try_breaks in
      none_further choice len space [] (λ k can. unfold CanEnd in omega (arith, can.0))
  try_breaks-IsBest choice len space (w ∷ others) =
      let longer = len + (space + w.length_of) in
      let choice' = consider globals at_start choice (w ∷ others) len in
      elim (Bool-cases (ltb longer globals.max_width)) [
        | inl e ↦
            let further = try_breaks-IsBest choice' longer w.space others in
            rw (goes_on choice len space w others e)
              (elim (consider_cases choice (w ∷ others) len space) [
                | inl (same, h) ↦
                    further_choice choice choice' _ len space w others (ground (arith, e))
                      (rw same (omega arith)) (rw same h) (inr same) further
                | inr (same, h) ↦
                    further_choice choice choice' _ len space w others (ground (arith, e))
                      (rw same h) (rw same (omega arith)) (inl same) further
              ])
        | inr e ↦ rw (stops choice len space w others e) (
            none_further choice len space (w ∷ others)
              (too_long len space w others (ground (arith, e))))
      ]
