-- ===== src/Fmt/Output/Spaces.antt =====
-- The blanks that put_space writes lead get_space from the column where they start to the one that
-- was asked for.
use lmcas.Base.{
  ℕ, zero, suc, ◌+◌, ◌-◌, ◌*◌, ◌/◌, ◌≤◌, ◌<◌, Bool, true, false, ◌&&◌, [], ◌∷◌, ◌++◌, Bytes, ltb,
  ◌==◌, ◌≡◌, refl, ap, ◌∙◌, arith, Bool-cases, inl, inr, append_assoc,
}
use lmcas.Fmt.Output.{put_tabs, put_blanks, put_space, next_stop}
use lmcas.Fmt.Input.{get_space}

-- Where get_space stops: at a text that does not begin with a blank.
abbrev pub IsAtWord : Bytes → Type 0
IsAtWord [] = Unit
IsAtWord (c ∷ text) = (c == b' ' ≡ false) × (c == b'\t' ≡ false)

get_space_stops :
    (column : ℕ) (tabs : Bool) (text : Bytes)
    → IsAtWord text
    → get_space column tabs text ≡ record { in_column = column; tabs = tabs; stream = text }
unfolding get_space
get_space_stops column tabs [] h = refl
get_space_stops column tabs (c ∷ text) (h, k) = rw (h, k) refl

get_space_blanks :
    (n column : ℕ) (tabs : Bool) (text : Bytes)
    → get_space column tabs (put_blanks n ++ text) ≡ get_space (column + n) tabs text
unfolding put_blanks get_space
get_space_blanks zero column tabs text = ap (λ k. get_space k tabs text) (omega arith)
get_space_blanks (suc n) column tabs text =
    get_space_blanks n (column + 1) tabs text ∙ ap (λ k. get_space k tabs text) (omega arith)

blanks_lead :
    (column target : ℕ) (flag : Bool) (text : Bytes)
    → column ≤ target
    → IsAtWord text
    → get_space column flag (put_blanks (target - column) ++ text)
      ≡ record { in_column = target; tabs = flag; stream = text }
blanks_lead column target flag text h at_word =
    get_space_blanks (target - column) column flag text
    ∙ ap (λ k. get_space k flag text) (omega (arith, h))
    ∙ get_space_stops target flag text at_word

put_tabs_end :
    (fuel column tab_target : ℕ)
    → ltb column tab_target ≡ false
    → put_tabs fuel column tab_target ≡ ([], column)
unfolding put_tabs
put_tabs_end zero column tab_target e = refl
put_tabs_end (suc fuel) column tab_target e = rw e refl

put_tabs_more :
    (fuel column tab_target : ℕ)
    → ltb column tab_target ≡ true
    → put_tabs (suc fuel) column tab_target ≡ (
      b'\t' ∷ (put_tabs fuel (next_stop column) tab_target).0,
      (put_tabs fuel (next_stop column) tab_target).1,
    )
unfolding put_tabs
put_tabs_more fuel column tab_target e = rw e refl

get_space_tab :
    (column : ℕ) (flag : Bool) (text : Bytes)
    → get_space column flag (b'\t' ∷ text) ≡ get_space (next_stop column) true text
unfolding get_space
get_space_tab column flag text = refl

-- Tabs lead to the tab stop exactly.
put_tabs_lem :
    (fuel column q : ℕ) (flag : Bool) (text : Bytes)
    → column ≤ q * 8
    → q * 8 - column ≤ fuel
    → ((put_tabs fuel column (q * 8)).1 ≡ q * 8)
      × ((flag' : Bool) × (get_space column flag ((put_tabs fuel column (q * 8)).0 ++ text)
            ≡ get_space (q * 8) flag' text))
unfolding put_tabs
put_tabs_lem zero column q flag text h enough =
    let there : column ≡ q * 8 = omega (arith, h, enough) in
    (there, (flag, ap (λ k. get_space k flag text) there))
put_tabs_lem (suc fuel) column q flag text h enough = elim (Bool-cases (ltb column (q * 8))) [
  | inr e ↦
      let there : column ≡ q * 8 = ground (arith, e, h) in
      rw (put_tabs_end (suc fuel) column (q * 8) e)
        (there, (flag, ap (λ k. get_space k flag text) there))
  | inl e ↦
      let below : column < q * 8 = ground (arith, e) in
      let (stop, (flag', reads)) =
        put_tabs_lem fuel (next_stop column) q true text (omega (arith, below))
          (omega (arith, below, enough)) in
      rw (put_tabs_more fuel column (q * 8) e) (stop, (flag', get_space_tab column flag _ ∙ reads))
]

put_space_plain :
    (tabs : Bool) (column space : ℕ)
    → (tabs && ltb (column + 1) ((column + space) / 8 * 8)) ≡ false
    → put_space tabs column space
      ≡ ([] ++ put_blanks (column + space - column), column + (column + space - column))
unfolding put_space
put_space_plain tabs column space e = rw e refl

put_space_tabbed :
    (tabs : Bool) (column space : ℕ)
    → (tabs && ltb (column + 1) ((column + space) / 8 * 8)) ≡ true
    → (put_tabs ((column + space) / 8 * 8 - column) column ((column + space) / 8 * 8)).1
      ≡ (column + space) / 8 * 8
    → put_space tabs column space ≡ (
      (put_tabs ((column + space) / 8 * 8 - column) column ((column + space) / 8 * 8)).0
          ++ put_blanks (column + space - (column + space) / 8 * 8),
      (column + space) / 8 * 8 + (column + space - (column + space) / 8 * 8),
    )
unfolding put_space
put_space_tabbed tabs column space e f = rw (e, f) refl

-- What put_space writes from a column, with tabs or without, leads get_space from the column to
-- `space` columns behind it, and that is the column that put_space goes on with.
pub put_space-get_space :
    (tabs flag : Bool) (column space : ℕ) (text : Bytes)
    → IsAtWord text
    → ((put_space tabs column space).1 ≡ column + space)
      × ((flag' : Bool) × (get_space column flag ((put_space tabs column space).0 ++ text)
            ≡ record { in_column = column + space; tabs = flag'; stream = text }))
put_space-get_space tabs flag column space text h =
    elim (Bool-cases (tabs && ltb (column + 1) ((column + space) / 8 * 8))) [
      | inl e ↦
          let q = (column + space) / 8 in
          let below : column < q * 8 = ground (arith, e) in
          let (stop, (flag', reads)) =
            put_tabs_lem (q * 8 - column) column q flag
              (put_blanks (column + space - q * 8) ++ text) (omega (arith, below)) (omega arith) in
          rw (put_space_tabbed tabs column space e stop) (
            omega arith,
            (
              flag',
              ap (get_space column flag) (
                    append_assoc ((put_tabs (q * 8 - column) column (q * 8)).0)
                      (put_blanks (column + space - q * 8)) text)
                  ∙ reads
                  ∙ blanks_lead (q * 8) (column + space) flag' text (omega arith) h,
            ),
          )
      | inr e ↦
          rw (put_space_plain tabs column space e)
            (omega arith, (flag, blanks_lead column (column + space) flag text (omega arith) h))
    ]
