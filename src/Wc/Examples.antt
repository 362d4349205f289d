-- ===== src/Wc/Examples.antt =====
-- Runs of the model of wc on a file that is read without fault.
use lmcas.Base.{
  ℕ, ◌+◌, ◌≡◌, refl, Bool, true, false, ◌&&◌, ◌==◌, some, Bytes, codes, length, arith, ltb, leb,
}
use lmcas.Head.Memory.{memory}
use lmcas.Head.Reads.{IsReadFrom}
use lmcas.Wc.{Counts, count_buffer, count_lines, count_words}
use lmcas.Wc.Laws.Texts.{newlines}
use lmcas.Wc.Laws.Files.{count_lines_lem}
use lmcas.Wc.Laws.Words.{no_counts}

abbrev is_print : ℕ → Bool
is_print c = leb 32 c && ltb c 127

abbrev is_space : ℕ → Bool
is_space c = c == 32

abbrev never : ℕ → Bool
never c = false

abbrev text : Bytes
text = codes "two words\n\tone\nend"

counted :
    count_words is_print is_space never memory 4 19 no_counts 0 text
    ≡ some (record { lines = 2; words = 4; bytes = 18; linelength = 11; ok = true })
unfolding count_words count_buffer
counted = refl

count_lines_lem_example :
    (counts : Counts) × (part : Bytes) × (count_lines memory 4 19 false 0 0 text ≡ some counts)
    × IsReadFrom memory text part counts.ok
    × (counts.lines ≡ 0 + newlines part)
    × (counts.bytes ≡ 0 + length part)
count_lines_lem_example = count_lines_lem memory 4 (omega arith) 19 0 0 false text (omega arith)
