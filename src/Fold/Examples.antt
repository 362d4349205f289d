-- ===== src/Fold/Examples.antt =====
-- Runs of the model of fold.
use lmcas.Base.{ℕ, ◌≡◌, refl, Bool, true, false, ◌||◌, ◌==◌, some, Bytes, codes}
use lmcas.Fold.{Settings, fold_file}
use lmcas.Fold.Laws.{AddsBreaks, fits}
use lmcas.Fold.Laws.Rescan.{fold_file-AddsBreaks}

abbrev is_space : ℕ → Bool
is_space c = c == b' ' || c == b'\t'

-- `fold -s -w 8`
abbrev at_spaces : Settings
at_spaces = record { count_bytes = false; break_spaces = true; width = 8 }

folded :
    fold_file at_spaces is_space (codes "one two three\nfour")
    ≡ some (codes "one two \nthree\nfour")
unfolding fold_file
folded = refl

fold_file-AddsBreaks_example :
    (out : Bytes) × (fold_file at_spaces is_space (codes "one two three\nfour") ≡ some out)
    × AddsBreaks (codes "one two three\nfour") out
    × (fits false 8 true 0 out ≡ true)
fold_file-AddsBreaks_example = fold_file-AddsBreaks at_spaces is_space (codes "one two three\nfour")
