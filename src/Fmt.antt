-- ===== src/Fmt.antt =====
-- fmt of annotated_Dataset-1/fmt.c: the words of a paragraph, the costs of breaking it, and
-- fmt_paragraph, which finds the breaks.
--
-- The paragraph is the list of the words from `word` to `word_limit`. A pointer to one of them is
-- the number of words from it to word_limit, so word_limit is 0. The costs are naturals: no term
-- that the source subtracts is larger than what it is taken from. The word at word_limit is not in
-- the list; its sentinel length is never added, since the loop ends at word_limit.
use lmcas.Base.{
  ℕ, zero, suc, ◌+◌, ◌-◌, ◌*◌, ◌/◌, Bool, true, false, not, ◌&&◌, List, [], ◌∷◌, Option, none, some,
  Bytes, ltb, ◌==◌, if◌then◌else◌, length,
}
pub mod Search
pub mod Bounds
pub mod Planned
pub mod Input
pub mod Tagged
pub mod Output
mod Examples

pub record Word : Type 0 where
  pub text : Bytes
  pub length_of : ℕ
  pub space : ℕ
  pub paren : Bool
  pub period : Bool
  pub punct : Bool
  pub final : Bool
  pub line_length : ℕ
  pub best_cost : ℕ
  pub next_break : ℕ

abbrev pub sqr : ℕ → ℕ
sqr n = n * n

abbrev pub maxcost : ℕ
maxcost = 9223372036854775807

unfoldable pub short_cost : ℕ → ℕ
short_cost n = sqr (n * 10)

unfoldable pub ragged_cost : ℕ → ℕ
unfolding short_cost
ragged_cost n = short_cost n / 2

abbrev pub basic_cost : ℕ
basic_cost = sqr 70

unfoldable pub widow_cost : ℕ → ℕ
widow_cost n = sqr 200 / (n + 2)

unfoldable pub orphan_cost : ℕ → ℕ
orphan_cost n = sqr 150 / (n + 2)

abbrev pub sentence_bonus : ℕ
sentence_bonus = sqr 50

abbrev pub nobreak_cost : ℕ
nobreak_cost = sqr 600

abbrev pub paren_bonus : ℕ
paren_bonus = sqr 40

abbrev pub punct_bonus : ℕ
punct_bonus = sqr 40

-- How far two lengths are apart; only its square counts.
abbrev pub distance : ℕ → ℕ → ℕ
distance a b = (a - b) + (b - a)

abbrev pub is_final : Option Word → Bool
is_final none = false
is_final (some w) = w.final

-- `start == word`, by the word before start.
abbrev pub is_start : Option Word → Bool
is_start none = true
is_start (some w) = false

-- The part of base_cost that depends on the words before `this`.
unfoldable pub cost_behind : Option Word → Option Word → ℕ
unfolding widow_cost
cost_behind second none = basic_cost
cost_behind second (some w) =
    if w.period
    then (if w.final then basic_cost - sentence_bonus else basic_cost + nobreak_cost)
    else if w.punct
    then basic_cost - punct_bonus
    else if is_final second
    then basic_cost + widow_cost w.length_of
    else basic_cost

-- `second` and `first` are the words `this - 2` and `this - 1`, none before the paragraph.
unfoldable pub base_cost : Option Word → Option Word → Word → ℕ
unfolding cost_behind orphan_cost
base_cost second first this =
    let cost = cost_behind second first in
    if this.paren
    then cost - paren_bonus
    else if this.final
    then cost + orphan_cost this.length_of
    else cost

-- The cost of the best paragraph from a word on.
abbrev pub cost_from : List Word → ℕ
cost_from [] = 0
cost_from (w ∷ next) = w.best_cost

pub record Globals : Type 0 where
  pub max_width : ℕ
  pub goal_width : ℕ
  pub first_indent : ℕ
  pub other_indent : ℕ
  pub last_line_length : ℕ

-- The best break of the candidates so far.
pub record Choice : Type 0 where
  pub best : ℕ
  pub break_before : ℕ
  pub len : ℕ

module _ (globals : Globals) where
  unfoldable pub line_cost : List Word → ℕ → ℕ
  unfolding short_cost ragged_cost
  line_cost [] len = 0
  line_cost (next ∷ others) len =
      let cost = short_cost (distance globals.goal_width len) in
      if next.next_break == 0 then cost else cost + ragged_cost (distance len next.line_length)

  -- `wcost`; at_start is `start == word`.
  unfoldable pub break_cost : Bool → List Word → ℕ → ℕ
  unfolding line_cost ragged_cost
  break_cost at_start w len =
      let wcost = line_cost w len + cost_from w in
      if at_start && ltb 0 globals.last_line_length
      then wcost + ragged_cost (distance len globals.last_line_length)
      else wcost

  -- Consider breaking before w.
  unfoldable pub consider : Bool → Choice → List Word → ℕ → Choice
  unfolding break_cost
  consider at_start choice w len =
      if ltb (break_cost at_start w len) choice.best
      then record { best = break_cost at_start w len; break_before = length w; len = len }
      else choice

  -- The inner loop of fmt_paragraph from w on, behind a word with the given space.
  unfoldable pub try_breaks : Bool → Choice → ℕ → ℕ → List Word → Choice
  unfolding consider
  try_breaks at_start choice space len [] = consider at_start choice [] len
  try_breaks at_start choice space len (w ∷ others) =
      let choice' = consider at_start choice (w ∷ others) len in
      let longer = len + (space + w.length_of) in
      let further = try_breaks at_start choice' w.space longer others in
      if ltb longer globals.max_width then further else choice'

  -- The round of fmt_paragraph for the word `start`.
  unfoldable pub fmt_word : Option Word → Option Word → Word → List Word → Word
  unfolding try_breaks base_cost
  fmt_word second first start next =
      let at_start = is_start first in
      let indent = if at_start then globals.first_indent else globals.other_indent in
      let initial : Choice = record {
        best = maxcost;
        break_before = start.next_break;
        len = start.line_length;
      } in
      let choice = try_breaks at_start initial start.space (indent + start.length_of) next in
      record start {
        line_length = choice.len;
        best_cost = choice.best + base_cost second first start;
        next_break = choice.break_before;
      }

  unfoldable pub fmt_words : Option Word → Option Word → List Word → List Word
  unfolding fmt_word
  fmt_words second first [] = []
  fmt_words second first (start ∷ words) =
      let next = fmt_words first (some start) words in fmt_word second first start next ∷ next

  abbrev pub fmt_paragraph : List Word → List Word
  fmt_paragraph words = fmt_words none none words
