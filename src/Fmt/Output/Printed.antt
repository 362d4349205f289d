-- ===== src/Fmt/Output/Printed.antt =====
-- put_paragraph behind fmt_paragraph: the words come out in order, in the lines that were planned.
use lmcas.Base.{ℕ, ◌+◌, List, [], ◌∷◌, length, drop, ◌≡◌}
use lmcas.Fmt.{Word}
use lmcas.Fmt.Search.{CanEnd}
use lmcas.Fmt.Output.{Layout}

module _ (layout : Layout) where
  -- A break is noted at each word, at which a line may end.
  abbrev Breaks : ℕ → ℕ → ℕ → List Word → Type 0
  Breaks max_width other_indent indent [] = Unit
  Breaks max_width other_indent indent (w ∷ next) =
      ((k : ℕ) × CanEnd max_width (indent + w.length_of) w.space next k
        × (w.next_break ≡ length (drop k next)))
      × Breaks max_width other_indent other_indent next
