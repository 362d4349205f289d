-- ===== src/Fold/Laws/Rescan.antt =====
-- fold_file ends, and its invariant holds.
use lmcas.Base.{
  ℕ, zero, suc, ◌<◌, Bool, true, false, ◌||◌, [], ◌∷◌, ◌++◌, none, some, Bytes, newline, ltb, leb,
  ◌==◌, length, ◌≡◌, refl, sym, subst, ◌∙◌, arith, Bool-cases, Option-cases, inl, inr, append_assoc,
  append-nil,
}
use lmcas.Fold.{
  Settings, State, adjust_column, columns_from, break_point, rescan, fold_char, fold_chars,
  fold_file,
}
use lmcas.Fold.Laws.{
  AddsBreaks, AddsBreaks_refl, AddsBreaks-append, fits, is_empty, Splits, split_last_blank-Splits,
}
use lmcas.Fold.Laws.Folded.{
  fits_in, IsFolded, broken_state, end_line, reassociate, broken_state-IsFolded,
  append_char-IsFolded,
}

module _ (settings : Settings) (isblank : ℕ → Bool) where
  -- What rescan makes of a state and a character.
  abbrev Rescanned : ℕ → Bytes → State → ℕ → Type 0
  Rescanned fuel read st c =
      (st' : State) × (rescan settings isblank fuel st c ≡ some st')
      × IsFolded settings (read ++ c ∷ []) st'

  rescan_room :
      (fuel : ℕ) (st : State) (c : ℕ)
      → ltb settings.width (adjust_column settings.count_bytes st.column c) ≡ false
      → rescan settings isblank (suc fuel) st c
        ≡ some (record st {
          line_out = st.line_out ++ c ∷ [];
          column = adjust_column settings.count_bytes st.column c;
        })
  unfolding rescan
  rescan_room fuel st c e = rw (e, rescan) refl

  rescan_break :
      (fuel : ℕ) (st : State) (c : ℕ) (front back : Bytes)
      → ltb settings.width (adjust_column settings.count_bytes st.column c) ≡ true
      → break_point settings isblank st.line_out ≡ some (front, back)
      → rescan settings isblank (suc fuel) st c
        ≡ rescan settings isblank fuel (broken_state settings st front back) c
  unfolding rescan broken_state
  rescan_break fuel st c front back e b = rw (e, rescan, b) refl

  rescan_first :
      (fuel : ℕ) (written : Bytes) (column c : ℕ)
      → ltb settings.width (adjust_column settings.count_bytes column c) ≡ true
      → break_point settings isblank [] ≡ none
      → rescan settings isblank
          (suc fuel)
          (record { written = written; line_out = []; column = column })
          c
        ≡ some (record {
          written = written;
          line_out = c ∷ [];
          column = adjust_column settings.count_bytes column c;
        })
  unfolding rescan
  rescan_first fuel written column c e b = rw (e, rescan, b) refl

  rescan_full :
      (fuel : ℕ) (written : Bytes) (first : ℕ) (others : Bytes) (column c : ℕ)
      → ltb settings.width (adjust_column settings.count_bytes column c) ≡ true
      → break_point settings isblank (first ∷ others) ≡ none
      → rescan settings isblank
          (suc fuel)
          (record { written = written; line_out = first ∷ others; column = column })
          c
        ≡ rescan settings isblank fuel
            (broken_state settings
              (record { written = written; line_out = first ∷ others; column = column })
              (first ∷ others)
              [])
            c
  unfolding rescan broken_state columns_from
  rescan_full fuel written first others column c e b = rw (e, rescan, b) refl

  break_point-Splits :
      (line front back : Bytes)
      → break_point settings isblank line ≡ some (front, back)
      → Splits line front back
  unfolding break_point
  break_point-Splits line front back e = elim (Bool-cases settings.break_spaces) [
    | inl d ↦ split_last_blank-Splits isblank line front back (rw d at e)
    | inr d ↦ cc (rw d at e)
  ]

  room_of :
      (line : Bytes) (n : ℕ)
      → ltb settings.width n ≡ false
      → (is_empty line || leb n settings.width) ≡ true
  room_of [] n e = refl
  room_of (x ∷ line) n e = ground arith

  rescan_lem :
      (fuel : ℕ) (read written line : Bytes) (column c : ℕ)
      → (c == newline) ≡ false
      → length line < fuel
      → IsFolded settings read (record { written = written; line_out = line; column = column })
      → Rescanned fuel read (record { written = written; line_out = line; column = column }) c
  unfolding broken_state columns_from
  rescan_lem zero read written line column c char enough h = absurd (omega arith)
  rescan_lem (suc fuel) read written [] column c char enough h =
      let st : State = record { written = written; line_out = []; column = column } in
      elim (Bool-cases (ltb settings.width (adjust_column settings.count_bytes column c))) [
        | inl wide ↦ elim (Option-cases (break_point settings isblank [])) [
          | inl b ↦ (
            _,
            rescan_first fuel written column c wide b,
            append_char-IsFolded settings read st c char h refl,
          )
          | inr ((front, back), b) ↦
              absurd (omega (arith, (break_point-Splits [] front back b).shorter))
        ]
        | inr fitting ↦
            (_, rescan_room fuel st c fitting, append_char-IsFolded settings read st c char h refl)
      ]
  rescan_lem (suc fuel) read written (x ∷ line) column c char enough h =
      let st : State = record { written = written; line_out = x ∷ line; column = column } in
      elim (Bool-cases (ltb settings.width (adjust_column settings.count_bytes column c))) [
        | inl wide ↦ elim (Option-cases (break_point settings isblank (x ∷ line))) [
          | inl b ↦
              let next =
                rescan_lem fuel read ((written ++ x ∷ line) ++ newline ∷ []) [] 0 c char
                  (omega (arith, enough))
                  (broken_state-IsFolded settings read st (x ∷ line) [] h
                    (sym (append-nil (x ∷ line)))) in
              (next.0, rescan_full fuel written x line column c wide b ∙ next.1, next.2)
          | inr ((front, back), b) ↦
              let parts = break_point-Splits (x ∷ line) front back b in
              let next =
                rescan_lem fuel read ((written ++ front) ++ newline ∷ []) back
                  (columns_from settings.count_bytes 0 back) c char
                  (omega (arith, enough, parts.shorter))
                  (broken_state-IsFolded settings read st front back h parts.whole) in
              (next.0, rescan_break fuel st c front back wide b ∙ next.1, next.2)
        ]
        | inr fitting ↦ (
          _,
          rescan_room fuel st c fitting,
          append_char-IsFolded settings read st c char h
              (room_of (x ∷ line) (adjust_column settings.count_bytes column c) fitting),
        )
      ]

  ended_line :
      (read written line : Bytes) (column c : ℕ)
      → c ≡ newline
      → IsFolded settings read (record { written = written; line_out = line; column = column })
      → IsFolded settings
          (read ++ c ∷ [])
          (record { written = (written ++ line) ++ newline ∷ []; line_out = []; column = 0 })
  ended_line read written line column c e h = record {
    adds = rw e (
        subst (AddsBreaks (read ++ newline ∷ []))
          (sym (append-nil ((written ++ line) ++ newline ∷ [])))
          (AddsBreaks-append h.adds (AddsBreaks_refl (newline ∷ []))));
    ended = λ rest r.
        subst (λ t. fits_in settings true 0 t ≡ true) (sym (reassociate written line rest))
          (h.ended (line ++ newline ∷ rest) (end_line settings line rest h.line h.narrow r));
    line = refl;
    narrow = unfold fits in refl;
    at_column = unfold columns_from in refl;
  }

  -- What one round of the loop makes of a state and a character.
  fold_char_lem :
      (read written line : Bytes) (column c : ℕ)
      → IsFolded settings read (record { written = written; line_out = line; column = column })
      → (st' : State) × (fold_char settings isblank
            (record { written = written; line_out = line; column = column })
            c
          ≡ some st')
        × IsFolded settings (read ++ c ∷ []) st'
  unfolding fold_char
  fold_char_lem read written line column c h = elim (Bool-cases (c == newline)) [
    | inl e ↦ (_, rw e refl, ended_line read written line column c (ground (arith, e)) h)
    | inr e ↦
        rw e (rescan_lem (suc (suc (length line))) read written line column c e (omega arith) h)
  ]

  next_char :
      (st st' : State) (c : ℕ) (istream : Bytes)
      → fold_char settings isblank st c ≡ some st'
      → fold_chars settings isblank st (c ∷ istream) ≡ fold_chars settings isblank st' istream
  unfolding fold_chars
  next_char st st' c istream e = rw (e, fold_chars) refl

  fold_chars_lem :
      (read written line : Bytes) (column : ℕ) (istream : Bytes)
      → IsFolded settings read (record { written = written; line_out = line; column = column })
      → (st' : State) × (fold_chars settings isblank
            (record { written = written; line_out = line; column = column })
            istream
          ≡ some st')
        × IsFolded settings (read ++ istream) st'
  fold_chars_lem read written line column [] h = (
    record { written = written; line_out = line; column = column },
    unfold fold_chars in refl,
    subst
        (λ t. IsFolded settings t (record { written = written; line_out = line; column = column }))
        (sym (append-nil read)) h,
  )
  fold_chars_lem read written line column (c ∷ istream) h =
      let (st, ends, folded) = fold_char_lem read written line column c h in
      let (st', ends', folded') =
        fold_chars_lem (read ++ c ∷ []) st.written st.line_out st.column istream folded in
      (
        st',
        next_char _ st c istream ends ∙ ends',
        subst (λ t. IsFolded settings t st') (append_assoc read (c ∷ []) istream) folded',
      )

-- fold_file ends. It writes the bytes of the file with line breaks added, and in each line that it
-- writes no character but the first goes past the width.
pub fold_file-AddsBreaks :
    (settings : Settings) (isblank : ℕ → Bool) (istream : Bytes)
    → (out : Bytes) × (fold_file settings isblank istream ≡ some out)
      × AddsBreaks istream out
      × (fits settings.count_bytes settings.width true 0 out ≡ true)
unfolding fold_file
fold_file-AddsBreaks settings isblank istream =
    let (st, ends, h) = fold_chars_lem settings isblank [] [] [] 0 istream (record {
      adds = AddsBreaks.nothing;
      ended = λ rest r. r;
      line = refl;
      narrow = unfold fits in refl;
      at_column = unfold columns_from in refl;
    }) in
    (st.written ++ st.line_out, rw (ends, fold_file) refl, h.adds, h.ended st.line_out h.narrow)
