-- ===== src/Wc/Laws/Words.antt =====
-- The loop of wc that counts words and the longest line, too.
use lmcas.Base.{ℕ, Bool, false, Bytes, length, ◌≡◌}
use lmcas.Wc.{Counts, Counter, add_if, longer}
use lmcas.Wc.Laws.{ends_line, separates}
use lmcas.Wc.Laws.Texts.{newlines, split_at, count_parts, longest}

module _ (isprint isspace isnbspace : ℕ → Bool) where
  -- What is returned of a counter.
  abbrev pub ended : Counter → ℕ → Bool → Counts
  ended counter bytes ok = record {
    lines = counter.lines;
    words = add_if counter.in_word counter.words;
    bytes = bytes;
    linelength = longer counter.linepos counter.linelength;
    ok = ok;
  }

-- The counter that the loop starts with.
abbrev pub no_counts : Counter
no_counts = record { lines = 0; words = 0; linelength = 0; linepos = 0; in_word = false }

-- What wc counts of a text: its line ends; the parts between separators with a printing character;
-- its bytes; and the longest of the lines between line ends, carriage returns and form feeds.
pub record AreCounts (isprint isspace isnbspace : ℕ → Bool) (text : Bytes) (counts : Counts)
    : Type 0 where
  pub lines : counts.lines ≡ newlines text
  pub words :
      counts.words ≡ count_parts isprint false (split_at (separates isprint isspace isnbspace) text)
  pub bytes : counts.bytes ≡ length text
  pub linelength : counts.linelength ≡ longest isprint isspace isnbspace 0 (split_at ends_line text)
