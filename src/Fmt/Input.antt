-- ===== src/Fmt/Input.antt =====
-- The parts of fmt that read: get_space and get_prefix, and the tests on what they read.
--
-- A stream is the character `c` that was read last, in front of what is still to come of the file;
-- it is empty at the end of the file.
use lmcas.Base.{
  ℕ, suc, ◌+◌, ◌*◌, ◌/◌, Bool, true, false, not, ◌&&◌, [], ◌∷◌, Bytes, ◌==◌, leb, if◌then◌else◌,
  length, drop, min, newline,
}

pub record Input : Type 0 where
  pub in_column : ℕ
  pub tabs : Bool
  pub stream : Bytes

unfoldable pub get_space : ℕ → Bool → Bytes → Input
get_space in_column tabs [] = record { in_column = in_column; tabs = tabs; stream = [] }
get_space in_column tabs (c ∷ f) =
    if c == b' '
    then get_space (in_column + 1) tabs f
    else if c == b'\t'
    then get_space ((in_column / 8 + 1) * 8) true f
    else record { in_column = in_column; tabs = tabs; stream = c ∷ f }

-- What set_prefix makes of the argument of --prefix.
pub record Prefix : Type 0 where
  pub prefix_lead_space : ℕ
  pub prefix_full_length : ℕ
  pub prefix : Bytes
  pub prefix_length : ℕ

unfoldable pub lead_spaces : Bytes → ℕ
lead_spaces [] = 0
lead_spaces (c ∷ p) = let further = lead_spaces p in if c == b' ' then suc further else 0

-- A character in front of the string without the spaces at its end.
unfoldable pub trim_char : ℕ → Bytes → Bytes
trim_char c [] = if c == b' ' then [] else c ∷ []
trim_char c (d ∷ t) = c ∷ d ∷ t

-- The string without the spaces at its end.
unfoldable pub trim_end : Bytes → Bytes
unfolding trim_char
trim_end [] = []
trim_end (c ∷ s) = trim_char c (trim_end s)

unfoldable pub set_prefix : Bytes → Prefix
unfolding lead_spaces trim_end
set_prefix p =
    let rest = drop (lead_spaces p) p in
    record {
      prefix_lead_space = lead_spaces p;
      prefix_full_length = length rest;
      prefix = trim_end rest;
      prefix_length = length (trim_end rest);
    }

-- What get_prefix leaves behind.
pub record LineStart : Type 0 where
  pub input : Input
  pub next_prefix_indent : ℕ

-- The loop over the prefix, and the blanks behind it.
unfoldable pub match_prefix : Bytes → ℕ → Bool → Bytes → Input
unfolding get_space
match_prefix [] in_column tabs stream = get_space in_column tabs stream
match_prefix (pc ∷ p) in_column tabs [] = record { in_column = in_column; tabs = tabs; stream = [] }
match_prefix (pc ∷ p) in_column tabs (c ∷ f) =
    let further = match_prefix p (in_column + 1) tabs f in
    if c == pc then further else record { in_column = in_column; tabs = tabs; stream = c ∷ f }

-- On what is to come of the file, from the beginning of a line on.
unfoldable pub get_prefix : Prefix → Bool → Bytes → LineStart
unfolding get_space match_prefix
get_prefix info tabs f =
    let input = get_space 0 tabs f in
    if info.prefix_length == 0
    then record { input = input; next_prefix_indent = min info.prefix_lead_space input.in_column }
    else record {
      input = match_prefix info.prefix input.in_column input.tabs input.stream;
      next_prefix_indent = input.in_column;
    }

-- The character that was read last could belong to the paragraph.
unfoldable pub same_para : Prefix → ℕ → LineStart → Bool
same_para info prefix_indent line =
    line.next_prefix_indent == prefix_indent
    && (leb (line.next_prefix_indent + info.prefix_full_length) line.input.in_column
        && (elim line.input.stream [ [] ↦ false | c ∷ f ↦ not (c == newline) ]))

-- The modes that tell how the lines of a paragraph are indented.
pub record Modes : Type 0 where
  pub crown : Bool
  pub tagged : Bool
  pub split : Bool

abbrev pub def_indent : ℕ
def_indent = 3

-- What set_other_indent makes of other_indent.
unfoldable pub set_other_indent : Modes → Bool → ℕ → ℕ → ℕ → ℕ
set_other_indent modes same_paragraph first_indent other_indent in_column =
    if modes.split
    then first_indent
    else if modes.crown
    then (if same_paragraph then in_column else first_indent)
    else if modes.tagged
    then (if same_paragraph && not (in_column == first_indent)
        then in_column
        else if other_indent == first_indent
        then (if first_indent == 0 then def_indent else 0)
        else other_indent)
    else first_indent
