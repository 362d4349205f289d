-- ===== src/Fmt/Planned.antt =====
-- fmt_paragraph: at each word the break that it notes is the cheapest, and no cost overflows.
use lmcas.Base.{
  ℕ, zero, suc, ◌+◌, ◌*◌, ◌≤◌, ◌<◌, Bool, List, [], ◌∷◌, Option, none, some, if◌then◌else◌, length,
  drop, ◌≡◌, refl, sym, ap, subst, arith, inl, inr,
}
use lmcas.Fmt.{
  Word, Globals, Choice, is_start, base_cost, cost_from, maxcost, try_breaks, fmt_word, fmt_words,
  fmt_paragraph,
}
use lmcas.Fmt.Search.{line_end, CanEnd, cost_of, choice_of, IsBest, try_breaks-IsBest}
use lmcas.Fmt.Bounds.{widest, line_bound, IsNarrow, base_cost_bounds, break_cost_bound}

-- Widths as the program allows them, with room for the indents.
pub record IsModerate (globals : Globals) : Type 0 where
  pub max_width : globals.max_width ≤ widest
  pub goal_width : globals.goal_width ≤ widest
  pub first_indent : globals.first_indent ≤ 990000
  pub other_indent : globals.other_indent ≤ 990000
  pub last_line_length : globals.last_line_length ≤ widest

-- No word is longer than the buffer for the text, of MAXCHARS.
abbrev pub AllShort : List Word → Type 0
AllShort [] = Unit
AllShort (w ∷ words) = (w.length_of ≤ 5000) × AllShort words

module _ (globals : Globals) where
  abbrev indent_of : Option Word → ℕ
  indent_of first = if is_start first then globals.first_indent else globals.other_indent

  -- The break that is noted at a word: the word is as it was; the line may end there; and the cost
  -- is the least of all lines that start with the word.
  pub record IsPlanned (second first : Option Word) (start : Word) (next : List Word) (noted : Word)
      : Type 0 where
    pub others : ℕ
    pub same : noted ≡ record start {
      line_length = noted.line_length;
      best_cost = noted.best_cost;
      next_break = noted.next_break;
    }
    pub can_end :
        CanEnd globals.max_width (indent_of first + start.length_of) start.space next others
    pub next_break : noted.next_break ≡ length (drop others next)
    pub line_length :
        noted.line_length ≡ line_end (indent_of first + start.length_of) start.space next others
    pub best_cost :
        noted.best_cost
        ≡ cost_of globals
            (is_start first)
            (indent_of first + start.length_of)
            start.space
            next
            others
          + base_cost second first start
    pub least :
        (k : ℕ)
        → CanEnd globals.max_width (indent_of first + start.length_of) start.space next k
        → noted.best_cost
          ≤ cost_of globals (is_start first) (indent_of first + start.length_of) start.space next k
            + base_cost second first start
    pub no_overflow : noted.best_cost < maxcost

  abbrev pub AllPlanned : Option Word → Option Word → List Word → List Word → Type 0
  AllPlanned second first [] [] = Unit
  AllPlanned second first [] (noted ∷ next) = ⊥
  AllPlanned second first (start ∷ words) [] = ⊥
  AllPlanned second first (start ∷ words) (noted ∷ next) =
      IsPlanned second first start next noted × AllPlanned first (some start) words next

  -- What the search needs of the words behind.
  record IsReady (next : List Word) : Type 0 where
    narrow : IsNarrow next
    cheap : cost_from next ≤ length next * line_bound

  line_end_bound :
      (len space : ℕ) (next : List Word) (k : ℕ)
      → globals.max_width ≤ widest
      → len ≤ widest
      → CanEnd globals.max_width len space next k
      → line_end len space next k ≤ widest
  unfolding CanEnd line_end
  line_end_bound len space next zero m h can = h
  line_end_bound len space next (suc k) m h (_, inl e) = absurd (omega (arith, e))
  line_end_bound len space next (suc k) m h (_, inr l) = omega (arith, l, m)

  indent_bound :
      (first : Option Word) (start : Word)
      → IsModerate globals
      → start.length_of ≤ 5000
      → indent_of first + start.length_of ≤ widest
  indent_bound none start moderate h = omega (arith, moderate.first_indent, h)
  indent_bound (some w) start moderate h = omega (arith, moderate.other_indent, h)

  -- The choice of a search that started with no break.
  chosen_break :
      (at_start : Bool) (len space bb ll : ℕ) (next : List Word) (choice : Choice)
      → IsBest globals at_start
          (record { best = maxcost; break_before = bb; len = ll })
          len
          space
          next
          choice
      → cost_of globals at_start len space next 0 < maxcost
      → (k : ℕ) × CanEnd globals.max_width len space next k
        × (choice ≡ choice_of globals at_start len space next k)
  chosen_break at_start len space bb ll next choice h cheap = elim h.chosen [
    | inl e ↦ absurd (
        omega (
          arith,
          ap (λ (c : Choice). c.best) e,
          h.least 0 (unfold CanEnd in (omega arith, inl refl)),
          cheap,
        ))
    | inr found ↦ found
  ]

  fmt_word_lem :
      (second first : Option Word) (start : Word) (next : List Word)
      → IsModerate globals
      → start.length_of ≤ 5000
      → length next < 1000
      → IsReady next
      → IsPlanned second first start next (fmt_word globals second first start next)
        × IsReady (fmt_word globals second first start next ∷ next)
  unfolding fmt_word
  fmt_word_lem second first start next moderate short few ready =
      let len = indent_of first + start.length_of in
      let initial : Choice = record {
        best = maxcost;
        break_before = start.next_break;
        len = start.line_length;
      } in
      let choice = try_breaks globals (is_start first) initial start.space len next in
      let h = try_breaks-IsBest globals (is_start first) initial len start.space next in
      let wide = indent_bound first start moderate short in
      let only =
        break_cost_bound globals (is_start first) next len moderate.goal_width
          moderate.last_line_length ready.narrow wide in
      let at_once : cost_of globals (is_start first) len start.space next 0
          ≤ 200000000000000 + cost_from next =
        unfold line_end in only in
      let base = (base_cost_bounds second first start).1 in
      let (k, can, e) =
        chosen_break (is_start first) len start.space start.next_break start.line_length next choice
          h (omega (arith, at_once, ready.cheap, few)) in
      let least = h.least 0 (unfold CanEnd in (omega arith, inl refl)) in
      (
        record {
          others = k;
          same = refl;
          can_end = can;
          next_break = ap (λ (c : Choice). c.break_before) e;
          line_length = ap (λ (c : Choice). c.len) e;
          best_cost = ap (λ (c : Choice). c.best + base_cost second first start) e;
          least = λ j can'. omega (arith, h.least j can');
          no_overflow = omega (arith, least, at_once, ready.cheap, few, base);
        },
        record {
          narrow =
              subst (λ t. t ≤ widest) (sym (ap (λ (c : Choice). c.len) e))
                (line_end_bound len start.space next k moderate.max_width wide can);
          cheap = omega (arith, least, at_once, ready.cheap, base);
        },
      )

  length-fmt_words :
      (second first : Option Word) (words : List Word)
      → length (fmt_words globals second first words) ≡ length words
  unfolding fmt_words
  length-fmt_words second first [] = refl
  length-fmt_words second first (w ∷ words) = ap suc (length-fmt_words first (some w) words)

  fmt_words_lem :
      (second first : Option Word) (words : List Word)
      → IsModerate globals
      → AllShort words
      → length words ≤ 1000
      → AllPlanned second first words (fmt_words globals second first words)
        × IsReady (fmt_words globals second first words)
  unfolding fmt_words
  fmt_words_lem second first [] moderate short few =
      (tt, record { narrow = tt; cheap = omega arith })
  fmt_words_lem second first (start ∷ words) moderate (short, shorts) few =
      let (planned, ready) =
        fmt_words_lem first (some start) words moderate shorts (omega (arith, few)) in
      let next = fmt_words globals first (some start) words in
      let (best, ready') =
        fmt_word_lem second first start next moderate short
          (omega (arith, few, length-fmt_words first (some start) words)) ready in
      ((best, planned), ready')

-- For a paragraph of at most MAXWORDS words, each of at most MAXCHARS bytes, widths and a last line
-- of at most a million columns, and indents of at most 990000, fmt_paragraph notes at each word a
-- break at which a line that starts with the word may end: behind one word, or where the line is
-- shorter than max_width. Its cost, which is the cost of the line with the best cost from the break
-- on, is the least among all such breaks, and below MAXCOST. Nothing else of the words is changed.
pub fmt_paragraph-AllPlanned :
    (globals : Globals) (words : List Word)
    → IsModerate globals
    → AllShort words
    → length words ≤ 1000
    → AllPlanned globals none none words (fmt_paragraph globals words)
fmt_paragraph-AllPlanned globals words moderate short few =
    (fmt_words_lem globals none none words moderate short few).0
