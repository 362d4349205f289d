-- ===== src/Fmt/Output/Indents.antt =====
-- get_prefix on a line that put_line wrote: it is read as a line of the same paragraph.
use lmcas.Base.{
  ℕ, suc, ◌+◌, ◌-◌, ◌≤◌, Bool, true, false, [], ◌∷◌, ◌++◌, Bytes, leb, ◌==◌, length, drop, newline,
  ◌≡◌, refl, sym, ap, ◌∙◌, arith, append_assoc, le→leb,
}
use lmcas.Fmt.Input.{
  Input, Prefix, LineStart, get_space, lead_spaces, trim_char, trim_end, set_prefix, match_prefix,
  get_prefix, same_para,
}
use lmcas.Fmt.Output.{Layout, put_space}
use lmcas.Fmt.Output.Spaces.{IsAtWord, put_space-get_space}
use lmcas.Fmt.Output.Lines.{indentation, margin}

match_prefix-append :
    (q : Bytes) (column : ℕ) (flag : Bool) (text : Bytes)
    → match_prefix q column flag (q ++ text) ≡ get_space (column + length q) flag text
unfolding match_prefix
match_prefix-append [] column flag text = ap (λ k. get_space k flag text) (omega arith)
match_prefix-append (c ∷ q) column flag text =
    let same : (c == c) ≡ true = ground arith in
    rw same
      (match_prefix-append q (column + 1) flag text ∙ ap (λ k. get_space k flag text) (omega arith))

prefix_read :
    (info : Prefix) (flag flag' : Bool) (f text : Bytes) (indent : ℕ)
    → (info.prefix_length == 0) ≡ false
    → get_space 0 flag f ≡ record { in_column = indent; tabs = flag'; stream = text }
    → get_prefix info flag f
      ≡ record { input = match_prefix info.prefix indent flag' text; next_prefix_indent = indent }
unfolding get_prefix
prefix_read info flag flag' f text indent e r = rw (e, r) refl

prefix_length-length : (p : Bytes) → (set_prefix p).prefix_length ≡ length (set_prefix p).prefix
unfolding set_prefix
prefix_length-length p = refl

length-trim_char : (c : ℕ) (t : Bytes) → length (trim_char c t) ≤ suc (length t)
unfolding trim_char
length-trim_char c [] = ground arith
length-trim_char c (d ∷ t) = omega arith

length-trim_end : (s : Bytes) → length (trim_end s) ≤ length s
unfolding trim_end
length-trim_end [] = omega arith
length-trim_end (c ∷ s) = omega (arith, length-trim_char c (trim_end s), length-trim_end s)

shorter_prefix : (p : Bytes) → (set_prefix p).prefix_length ≤ (set_prefix p).prefix_full_length
unfolding set_prefix
shorter_prefix p = length-trim_end (drop (lead_spaces p) p)

-- The layout that prints the prefix.
abbrev pub layout_with : Prefix → Bool → ℕ → Layout
layout_with info tabs prefix_indent = record {
  tabs = tabs;
  prefix_indent = prefix_indent;
  prefix = info.prefix;
  prefix_length = info.prefix_length;
}

indentation_read :
    (info : Prefix) (prefix_indent indent : ℕ) (tabs flag : Bool) (text : Bytes)
    → info.prefix_length ≡ length info.prefix
    → (info.prefix_length == 0) ≡ false
    → ((others : Bytes) → IsAtWord (info.prefix ++ others))
    → IsAtWord text
    → (flag' : Bool) × (get_prefix info flag
          (indentation (layout_with info tabs prefix_indent) indent ++ text)
        ≡ record {
          input = record {
            in_column = margin (layout_with info tabs prefix_indent) indent;
            tabs = flag';
            stream = text;
          };
          next_prefix_indent = prefix_indent;
        })
indentation_read info prefix_indent indent tabs flag text size some_prefix at_prefix at_text =
    let column = prefix_indent + info.prefix_length in
    let front = (put_space tabs 0 prefix_indent).0 in
    let back = (put_space tabs column (indent - column)).0 in
    let (_, (flag_1, read_1)) =
      put_space-get_space tabs flag 0 prefix_indent (info.prefix ++ (back ++ text))
        (at_prefix (back ++ text)) in
    let (_, (flag_2, read_2)) =
      put_space-get_space tabs flag_1 column (indent - column) text at_text in
    let from_zero : 0 + prefix_indent ≡ prefix_indent = omega arith in
    (
      flag_2,
      ap (get_prefix info flag) (
            append_assoc (front ++ info.prefix) back text
            ∙ append_assoc front info.prefix (back ++ text))
          ∙ prefix_read info flag flag_1 (front ++ (info.prefix ++ (back ++ text)))
              (info.prefix ++ (back ++ text)) prefix_indent some_prefix
              (read_1
                ∙ ap
                    (λ k. record {
                      in_column = k;
                      tabs = flag_1;
                      stream = info.prefix ++ (back ++ text);
                    })
                    from_zero)
          ∙ ap (λ (i : Input). record { input = i; next_prefix_indent = prefix_indent })
              (match_prefix-append info.prefix prefix_indent flag_1 (back ++ text)
                ∙ ap (λ k. get_space (prefix_indent + k) flag_1 (back ++ text)) (sym size)
                ∙ read_2),
    )

at_word :
    (prefix others : Bytes) (c : ℕ) (q : Bytes)
    → prefix ≡ c ∷ q
    → IsAtWord (c ∷ q)
    → IsAtWord (prefix ++ others)
at_word prefix others c q e h = rw e h

-- A line of words under a prefix is read back as a line of the paragraph it was printed for, at its
-- indent, when the prefix does not begin with a blank and the indent leaves room for it.
pub indentation-same_para :
    (p q text : Bytes) (c d prefix_indent indent : ℕ) (tabs flag : Bool)
    → (set_prefix p).prefix ≡ c ∷ q
    → IsAtWord (c ∷ q)
    → IsAtWord (d ∷ text)
    → (d == newline) ≡ false
    → prefix_indent + (set_prefix p).prefix_full_length ≤ indent
    → (line : LineStart) × (get_prefix
          (set_prefix p)
          flag
          (indentation (layout_with (set_prefix p) tabs prefix_indent) indent ++ (d ∷ text))
        ≡ line)
      × (line.input.in_column ≡ indent)
      × (line.input.stream ≡ d ∷ text)
      × (same_para (set_prefix p) prefix_indent line ≡ true)
unfolding same_para
indentation-same_para p q text c d prefix_indent indent tabs flag e at_prefix at_text not_end room =
    let info = set_prefix p in
    let size = prefix_length-length p in
    let some_prefix : (info.prefix_length == 0) ≡ false = ground (arith, size, ap length e) in
    let (flag', reads) =
      indentation_read info prefix_indent indent tabs flag (d ∷ text) size some_prefix
        (λ others. at_word info.prefix others c q e at_prefix) at_text in
    let whole : prefix_indent + info.prefix_length + (indent - (prefix_indent + info.prefix_length))
        ≡ indent =
      omega (arith, room, shorter_prefix p) in
    let here : (prefix_indent == prefix_indent) ≡ true = ground arith in
    let enough : leb (prefix_indent + info.prefix_full_length) indent ≡ true =
      le→leb (prefix_indent + info.prefix_full_length) indent room in
    (_, reads, whole, refl, rw (here, whole, enough, not_end) refl)
