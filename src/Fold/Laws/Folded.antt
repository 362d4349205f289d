-- ===== src/Fold/Laws/Folded.antt =====
-- What holds of the state of fold_file's loop, and what it does to a line.
use lmcas.Base.{
  ℕ, Bool, true, false, ◌||◌, ◌&&◌, [], ◌∷◌, ◌++◌, Bytes, newline, leb, ◌==◌, ◌≡◌, refl, sym, ap,
  subst, ◌∙◌, arith, append_assoc,
}
use lmcas.Fold.{Settings, State, adjust_column, columns_from}
use lmcas.Fold.Laws.{
  AddsBreaks, AddsBreaks_refl, AddsBreaks_trans, AddsBreaks-break, AddsBreaks-append, fits,
  one_line, is_empty, fits_mono, fits-append, columns_from-append,
}

both_true : (p q : Bool) → (p && q) ≡ true → (p ≡ true) × (q ≡ true)
both_true true q h = (refl, h)
both_true false q h = cc h

pub reassociate : (a b c : Bytes) → ((a ++ b) ++ newline ∷ []) ++ c ≡ a ++ (b ++ newline ∷ c)
reassociate a b c = append_assoc (a ++ b) (newline ∷ []) c ∙ append_assoc a b (newline ∷ c)

one_line_snoc :
    (line : Bytes) (c : ℕ)
    → one_line line ≡ true
    → (c == newline) ≡ false
    → one_line (line ++ c ∷ []) ≡ true
one_line_snoc [] c l h = rw h refl
one_line_snoc (x ∷ line) c l h = ground (arith, l, one_line_snoc line c)

module _ (settings : Settings) where
  abbrev pub fits_in : Bool → ℕ → Bytes → Bool
  fits_in fresh column text = fits settings.count_bytes settings.width fresh column text

  -- After the bytes `read`: they are written or wait, the lines that are written fit and the last
  -- of them is ended, and the line that waits fits.
  pub record IsFolded (read : Bytes) (st : State) : Type 0 where
    pub adds : AddsBreaks read (st.written ++ st.line_out)
    pub ended :
        (rest : Bytes) → fits_in true 0 rest ≡ true → fits_in true 0 (st.written ++ rest) ≡ true
    pub line : one_line st.line_out ≡ true
    pub narrow : fits_in true 0 st.line_out ≡ true
    pub at_column : st.column ≡ columns_from settings.count_bytes 0 st.line_out

  -- The line `front ++ back` broken between its parts.
  unfoldable pub broken_state : State → Bytes → Bytes → State
  broken_state st front back = record {
    written = st.written ++ front ++ newline ∷ [];
    line_out = back;
    column = columns_from settings.count_bytes 0 back;
  }

  one_line-append :
      (front back : Bytes)
      → one_line (front ++ back) ≡ true
      → (one_line front ≡ true) × (one_line back ≡ true)
  one_line-append [] back h = (refl, h)
  one_line-append (c ∷ front) back h = ground (arith, h, one_line-append front back)

  -- A first part that fits can be ended.
  pub end_line :
      (front rest : Bytes)
      → one_line front ≡ true
      → fits_in true 0 front ≡ true
      → fits_in true 0 rest ≡ true
      → fits_in true 0 (front ++ newline ∷ rest) ≡ true
  end_line front rest l n h =
      fits-append settings.count_bytes settings.width true 0 front (newline ∷ rest) l
      ∙ rw n (unfold fits in h)

  narrow_back :
      (front back : Bytes)
      → one_line (front ++ back) ≡ true
      → fits_in true 0 (front ++ back) ≡ true
      → (fits_in true 0 front ≡ true) × (fits_in true 0 back ≡ true)
  narrow_back [] back l n = (unfold fits in refl, n)
  narrow_back (c ∷ front) back l n =
      let both =
        sym (
          fits-append settings.count_bytes settings.width true 0 (c ∷ front) back
            ((one_line-append (c ∷ front) back l).0))
        ∙ n in
      let (f, b) = both_true (fits_in true 0 (c ∷ front)) _ both in
      (f, fits_mono settings.count_bytes settings.width true 0 _ back (omega arith) b)

  pub broken_state-IsFolded :
      (read : Bytes) (st : State) (front back : Bytes)
      → IsFolded read st
      → st.line_out ≡ front ++ back
      → IsFolded read (broken_state st front back)
  unfolding broken_state
  broken_state-IsFolded read st front back h e =
      let l = subst (λ t. one_line t ≡ true) e h.line in
      let n = subst (λ t. fits_in true 0 t ≡ true) e h.narrow in
      let parts = one_line-append front back l in
      let fitting = narrow_back front back l n in
      record {
        adds =
            AddsBreaks_trans
              (subst (AddsBreaks read)
                (ap (λ t. st.written ++ t) e ∙ sym (append_assoc st.written front back)) h.adds)
              (AddsBreaks-break (st.written ++ front) back);
        ended = λ rest r.
            subst (λ t. fits_in true 0 t ≡ true) (sym (reassociate st.written front rest))
              (h.ended (front ++ newline ∷ rest) (end_line front rest parts.0 fitting.0 r));
        line = parts.1;
        narrow = fitting.1;
        at_column = refl;
      }

  last_char :
      (empty : Bool) (column c : ℕ)
      → (c == newline) ≡ false
      → (empty || leb (adjust_column settings.count_bytes column c) settings.width) ≡ true
      → fits_in (true && empty) column (c ∷ []) ≡ true
  unfolding fits
  last_char empty column c char room = ground (arith, char, room)

  -- A character behind a line where it fits.
  pub append_char-IsFolded :
      (read : Bytes) (st : State) (c : ℕ)
      → (c == newline) ≡ false
      → IsFolded read st
      → (is_empty st.line_out
          || leb (adjust_column settings.count_bytes st.column c) settings.width)
        ≡ true
      → IsFolded (read ++ c ∷ []) (record st {
        line_out = st.line_out ++ c ∷ [];
        column = adjust_column settings.count_bytes st.column c;
      })
  append_char-IsFolded read st c char h room = record {
    adds =
        subst (AddsBreaks (read ++ c ∷ [])) (append_assoc st.written st.line_out (c ∷ []))
          (AddsBreaks-append h.adds (AddsBreaks_refl (c ∷ [])));
    ended = h.ended;
    line = one_line_snoc st.line_out c h.line char;
    narrow =
        fits-append settings.count_bytes settings.width true 0 st.line_out (c ∷ []) h.line
        ∙ rw h.narrow (
            last_char (is_empty st.line_out) (columns_from settings.count_bytes 0 st.line_out) c
              char
              (subst
                (λ k.
                  (is_empty st.line_out
                    || leb (adjust_column settings.count_bytes k c) settings.width)
                  ≡ true)
                h.at_column room));
    at_column =
        ap (λ k. adjust_column settings.count_bytes k c) h.at_column
        ∙ sym (
            columns_from-append settings.count_bytes 0 st.line_out (c ∷ [])
            ∙ (unfold columns_from in refl));
  }
