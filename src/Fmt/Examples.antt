-- ===== src/Fmt/Examples.antt =====
-- Runs of the model of fmt.
use lmcas.Base.{
  ◌≢◌, ◌≤◌, ℕ, ◌≡◌, refl, Bool, true, false, List, [], ◌∷◌, ◌++◌, none, some, Bytes, codes, length,
  arith, map,
}
use lmcas.Fmt.Bounds.{base_cost_bounds}
use lmcas.Fmt.{base_cost, Word, Globals, fmt_paragraph, fmt_words}
use lmcas.Fmt.Planned.{IsModerate, AllShort, AllPlanned, fmt_paragraph-AllPlanned}
use lmcas.Fmt.Tagged.{set_other_indent-tagged}
use lmcas.Fmt.Input.{
  Modes, set_other_indent, LineStart, get_space, set_prefix, get_prefix, same_para,
}
use lmcas.Fmt.Output.Indents.{layout_with, indentation-same_para}
use lmcas.Fmt.Output.{Layout, put_space, put_words, put_line, put_lines, put_paragraph}
use lmcas.Fmt.Output.Spaces.{put_space-get_space}
use lmcas.Fmt.Output.Lines.{indentation}

abbrev word_of : Bytes → Word
word_of text = record {
  text = text;
  length_of = length text;
  space = 1;
  paren = false;
  period = false;
  punct = false;
  final = false;
  line_length = 0;
  best_cost = 0;
  next_break = 0;
}

abbrev last_word : Word
last_word = record (word_of (codes "dog.")) { period = true; punct = true; final = true }

abbrev others : List Word
others = word_of (codes "quick") ∷ word_of (codes "brown") ∷ word_of (codes "fox") ∷ last_word ∷ []

-- `fmt -w 12`
abbrev narrow : Globals
narrow = record {
  max_width = 12;
  goal_width = 11;
  first_indent = 2;
  other_indent = 0;
  last_line_length = 0;
}

abbrev plain : Layout
plain = record { tabs = false; prefix_indent = 0; prefix = []; prefix_length = 0 }

narrow-IsModerate : IsModerate narrow
narrow-IsModerate = record {
  max_width = omega arith;
  goal_width = omega arith;
  first_indent = omega arith;
  other_indent = omega arith;
  last_line_length = omega arith;
}

all_short : AllShort (word_of (codes "The") ∷ others)
all_short = (omega arith, (omega arith, (omega arith, (omega arith, (omega arith, tt)))))

abbrev plan_of : Word → ℕ × ℕ
plan_of w = (w.next_break, w.line_length)

breaks :
    map plan_of (fmt_paragraph narrow (word_of (codes "The") ∷ others))
    ≡ (4, 5) ∷ (2, 11) ∷ (2, 5) ∷ (0, 8) ∷ (0, 4) ∷ []
unfolding fmt_words
breaks = refl

printed :
    put_paragraph plain narrow 0 (fmt_paragraph narrow (word_of (codes "The") ∷ others))
    ≡ some (codes "  The\nquick brown\nfox dog.\n", 8)
unfolding put_paragraph put_lines put_line put_words put_space fmt_words
printed = refl

fmt_paragraph-AllPlanned_example :
    AllPlanned narrow none none
      (word_of (codes "The") ∷ others)
      (fmt_paragraph narrow (word_of (codes "The") ∷ others))
fmt_paragraph-AllPlanned_example =
    fmt_paragraph-AllPlanned narrow (word_of (codes "The") ∷ others) narrow-IsModerate all_short
      (omega arith)

put_space-get_space_example :
    ((put_space true 3 17).1 ≡ 20)
    × ((flag' : Bool) × (get_space 3 false ((put_space true 3 17).0 ++ codes "word")
          ≡ record { in_column = 20; tabs = flag'; stream = codes "word" }))
put_space-get_space_example = put_space-get_space true false 3 17 (codes "word") (refl, refl)

-- Under `fmt -p '> '` a quoted line with an indent of six columns.
indentation-same_para_example :
    (line : LineStart) × (get_prefix
        (set_prefix (codes "> "))
        false
        (indentation (layout_with (set_prefix (codes "> ")) true 0) 6 ++ codes "text\n")
      ≡ line)
    × (line.input.in_column ≡ 6)
    × (line.input.stream ≡ codes "text\n")
    × (same_para (set_prefix (codes "> ")) 0 line ≡ true)
unfolding set_prefix
indentation-same_para_example =
    indentation-same_para (codes "> ") [] (codes "ext\n") b'>' b't' 0 6 true false refl (refl, refl)
      (refl, refl) refl (omega arith)

base_cost_bounds_example :
    (800 ≤ base_cost none (some last_word) last_word)
    × (base_cost none (some last_word) last_word ≤ 387400)
base_cost_bounds_example = base_cost_bounds none (some last_word) last_word

-- `fmt -t`
abbrev tagged_only : Modes
tagged_only = record { crown = false; tagged = true; split = false }

set_other_indent-tagged_example : set_other_indent tagged_only true 2 2 2 ≢ 2
set_other_indent-tagged_example = set_other_indent-tagged tagged_only true 2 2 2 refl refl refl
