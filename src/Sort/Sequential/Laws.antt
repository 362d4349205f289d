-- ===== src/Sort/Sequential/Laws.antt =====
-- sequential_sort ends and leaves the stable order of the lines, sorted part by sorted part.
use Prim.Native.Nat.{Ordering}
use lmcas.Base.{
  ℕ, zero, suc, ◌+◌, ◌-◌, ◌/◌, ◌≤◌, Bool, true, false, not, [], ◌∷◌, ◌≡◌, refl, sym, ap, ◌∙◌, inl,
  inr, arith, Bool-cases, ◌==◌, ltb, ltb→lt, if◌then◌else◌, some,
}
use lmcas.Sort.Order.{IsPreorder, le, insert_line, stable_sort, merge-stable_sort}
use lmcas.Sort.Sequential.{
  Arrays, store, mergelines, sort_two, place_one, merge_parts, sequential_sort,
}
use lmcas.Sort.Sequential.Merge.{
  IsOutside, segment, segment_congr, segment-append, store_here, store_other, mergelines-segment,
  mergelines-outside,
}

-- Where the output goes, and the room that is used of `temp`.
abbrev pub place : ℕ → ℕ → Bool → ℕ
place lines temp to_temp = if to_temp then temp else lines

abbrev pub room : ℕ → Bool → ℕ
room nlines to_temp = if to_temp then nlines else nlines / 2

module _ {ℓ} {A : Type ℓ} where
  abbrev pub target : Arrays A → Bool → ℕ → A
  target m to_temp = if to_temp then m.temp else m.lines

-- The output holds the stable order of the input, and no cell outside of `lines` and of the room in
-- `temp` has changed.
pub record Sorts {ℓ} {A : Type ℓ} (compare : A → A → Ordering) (m m' : Arrays A)
    (lines nlines temp : ℕ) (to_temp : Bool) : Type ℓ where
  pub sorted :
      segment (target m' to_temp) (place lines temp to_temp) nlines
      ≡ stable_sort compare (segment m.lines lines nlines)
  pub lines_kept : (q : ℕ) → IsOutside q lines nlines → m'.lines q ≡ m.lines q
  pub temp_kept : (q : ℕ) → IsOutside q temp (room nlines to_temp) → m'.temp q ≡ m.temp q

module _ {ℓ} {A : Type ℓ} (compare : A → A → Ordering) where
  in_order : (x y : A) → le compare x y ≡ true → x ∷ y ∷ [] ≡ stable_sort compare (x ∷ y ∷ [])
  unfolding stable_sort insert_line
  in_order x y e = rw e refl

  swapped : (x y : A) → le compare x y ≡ false → y ∷ x ∷ [] ≡ stable_sort compare (x ∷ y ∷ [])
  unfolding stable_sort insert_line
  swapped x y e = rw e refl

  stored_two :
      (f : ℕ → A) (p : ℕ) (x y : A) → segment (store (store f p x) (p + 1) y) p 2 ≡ x ∷ y ∷ []
  unfolding segment
  stored_two f p x y =
      let h = store_other (store f p x) (p + 1) y p (inl (omega arith)) ∙ store_here f p x in
      rw (h, store_here (store f p x) (p + 1) y) refl

  stored_two-outside :
      (f : ℕ → A) (p : ℕ) (x y : A) (q : ℕ)
      → IsOutside q p 2
      → store (store f p x) (p + 1) y q ≡ f q
  stored_two-outside f p x y q out =
      store_other (store f p x) (p + 1) y q (omega arith) ∙ store_other f p x q (omega arith)

  sort_two_lem :
      (m : Arrays A) (lines temp : ℕ) (to_temp : Bool)
      → Sorts compare m (sort_two compare m lines temp to_temp) lines 2 temp to_temp
  unfolding sort_two segment
  sort_two_lem m lines temp true =
      elim (Bool-cases (le compare (m.lines lines) (m.lines (lines + 1)))) [
        | inl e ↦ record {
          sorted =
              rw e (stored_two m.temp temp (m.lines lines) (m.lines (lines + 1)) ∙ in_order _ _ e);
          lines_kept = λ q out. refl;
          temp_kept = λ q out. rw e (stored_two-outside m.temp temp _ _ q out);
        }
        | inr e ↦ record {
          sorted =
              rw e (stored_two m.temp temp (m.lines (lines + 1)) (m.lines lines) ∙ swapped _ _ e);
          lines_kept = λ q out. refl;
          temp_kept = λ q out. rw e (stored_two-outside m.temp temp _ _ q out);
        }
      ]
  sort_two_lem m lines temp false =
      elim (Bool-cases (le compare (m.lines lines) (m.lines (lines + 1)))) [
        | inl e ↦ record {
          sorted = rw e (in_order _ _ e);
          lines_kept = λ q out. rw e refl;
          temp_kept = λ q out. rw e refl;
        }
        | inr e ↦ record {
          sorted =
              rw (e, store_here m.temp temp (m.lines lines))
                (stored_two m.lines lines (m.lines (lines + 1)) (m.lines lines) ∙ swapped _ _ e);
          lines_kept = λ q out. rw e (stored_two-outside m.lines lines _ _ q out);
          temp_kept = λ q out. rw e (store_other m.temp temp (m.lines lines) q out);
        }
      ]

  place_one_lem :
      (m : Arrays A) (lines temp : ℕ) (to_temp : Bool)
      → Sorts compare m (place_one compare m lines temp to_temp) lines 1 temp (not to_temp)
  unfolding place_one segment stable_sort insert_line
  place_one_lem m lines temp true = record {
    sorted = refl;
    lines_kept = λ q out. refl;
    temp_kept = λ q out. refl;
  }
  place_one_lem m lines temp false = record {
    sorted = ap (λ x. x ∷ []) (store_here m.temp temp (m.lines lines));
    lines_kept = λ q out. refl;
    temp_kept = λ q out. store_other m.temp temp (m.lines lines) q out;
  }

module _ {ℓ} {A : Type ℓ} (compare : A → A → Ordering) (order : IsPreorder compare) where
  merged :
      (old mid : ℕ → A) (lines nlines : ℕ) (dest : ℕ → A) (t : ℕ) (lo_array : ℕ → A) (lo : ℕ)
      → ((q : ℕ) → IsOutside q (lines + nlines / 2) (nlines - nlines / 2) → mid q ≡ old q)
      → segment dest (t + nlines / 2) (nlines - nlines / 2)
        ≡ stable_sort compare (segment old (lines + nlines / 2) (nlines - nlines / 2))
      → segment lo_array lo (nlines / 2) ≡ stable_sort compare (segment mid lines (nlines / 2))
      → segment (mergelines compare dest t nlines lo_array lo) t nlines
        ≡ stable_sort compare (segment old lines nlines)
  merged old mid lines nlines dest t lo_array lo kept hi_sorted lo_sorted =
      let nlo = nlines / 2 in
      let nhi = nlines - nlo in
      let low = segment_congr mid old lines nlo (λ q from to. kept q (inl (omega arith))) in
      let both : nlines ≡ nlo + nhi = omega arith in
      mergelines-segment compare dest t nlines lo_array lo
      ∙ rw (hi_sorted, lo_sorted, low)
          (merge-stable_sort compare order (segment old lines nlo) (segment old (lines + nlo) nhi))
      ∙ ap (stable_sort compare)
          (sym (ap (segment old lines) both ∙ segment-append old lines nlo nhi))

  step_two :
      (fuel : ℕ) (m : Arrays A) (lines temp : ℕ) (to_temp : Bool)
      → sequential_sort compare (suc fuel) m lines 2 temp to_temp
        ≡ some (sort_two compare m lines temp to_temp)
  unfolding sequential_sort
  step_two fuel m lines temp to_temp = refl

  step_more :
      (fuel : ℕ) (m m' m'' : Arrays A) (lines nlines temp : ℕ) (to_temp : Bool)
      → (nlines == 2) ≡ false
      → sequential_sort compare fuel m
          (lines + nlines / 2)
          (nlines - nlines / 2)
          (if to_temp then temp + nlines / 2 else temp)
          to_temp
        ≡ some m'
      → (if ltb 1 (nlines / 2)
          then sequential_sort compare fuel m' lines (nlines / 2) temp (not to_temp)
          else some (place_one compare m' lines temp to_temp))
        ≡ some m''
      → sequential_sort compare (suc fuel) m lines nlines temp to_temp
        ≡ some (merge_parts compare m'' lines nlines temp to_temp)
  unfolding sequential_sort
  step_more fuel m m' m'' lines nlines temp to_temp e h l = rw (e, sequential_sort, h, l) refl

  hi_then_lo :
      (m m' m'' : Arrays A) (lines nlines temp : ℕ) (to_temp : Bool)
      → 2 ≤ nlines
      → Sorts compare m m'
          (lines + nlines / 2)
          (nlines - nlines / 2)
          (if to_temp then temp + nlines / 2 else temp)
          to_temp
      → Sorts compare m' m'' lines (nlines / 2) temp (not to_temp)
      → Sorts compare m
          (merge_parts compare m'' lines nlines temp to_temp)
          lines
          nlines
          temp
          to_temp
  unfolding merge_parts
  hi_then_lo m m' m'' lines nlines temp true two hi lo = record {
    sorted =
        let same =
          segment_congr m''.temp m'.temp (temp + nlines / 2) (nlines - nlines / 2)
            (λ q from to. lo.temp_kept q (inr (omega arith))) in
        merged m.lines m'.lines lines nlines m''.temp temp m''.lines lines hi.lines_kept
          (same ∙ hi.sorted) lo.sorted;
    lines_kept = λ q out. lo.lines_kept q (omega arith) ∙ hi.lines_kept q (omega arith);
    temp_kept = λ q out.
        mergelines-outside compare m''.temp temp nlines m''.lines lines q out
        ∙ lo.temp_kept q (omega arith)
        ∙ hi.temp_kept q (omega arith);
  }
  hi_then_lo m m' m'' lines nlines temp false two hi lo = record {
    sorted =
        let same =
          segment_congr m''.lines m'.lines (lines + nlines / 2) (nlines - nlines / 2)
            (λ q from to. lo.lines_kept q (inr (omega arith))) in
        merged m.lines m'.lines lines nlines m''.lines lines m''.temp temp hi.lines_kept
          (same ∙ hi.sorted) lo.sorted;
    lines_kept = λ q out.
        mergelines-outside compare m''.lines lines nlines m''.temp temp q out
        ∙ lo.lines_kept q (omega arith)
        ∙ hi.lines_kept q (omega arith);
    temp_kept = λ q out. lo.temp_kept q (omega arith) ∙ hi.temp_kept q (omega arith);
  }

  -- The call on LO ends, or LO is one line.
  lo_part :
      (fuel : ℕ) (m : Arrays A) (lines nlines temp : ℕ) (to_temp : Bool)
      → 3 ≤ nlines
      → (2 ≤ nlines / 2
          → (m' : Arrays A) × (sequential_sort compare fuel m lines (nlines / 2) temp (not to_temp)
              ≡ some m')
            × Sorts compare m m' lines (nlines / 2) temp (not to_temp))
      → (m' : Arrays A) × ((if ltb 1 (nlines / 2)
            then sequential_sort compare fuel m lines (nlines / 2) temp (not to_temp)
            else some (place_one compare m lines temp to_temp))
          ≡ some m')
        × Sorts compare m m' lines (nlines / 2) temp (not to_temp)
  lo_part fuel m lines nlines temp to_temp more call = elim (Bool-cases (ltb 1 (nlines / 2))) [
    | inl e ↦ rw e (call (ltb→lt 1 (nlines / 2) e))
    | inr e ↦
        let one : nlines / 2 ≡ 1 = ground (arith, e) in
        rw one
          (place_one compare m lines temp to_temp, refl, place_one_lem compare m lines temp to_temp)
  ]

  pub sequential_sort_lem :
      (fuel : ℕ) (m : Arrays A) (lines nlines temp : ℕ) (to_temp : Bool)
      → 2 ≤ nlines
      → nlines ≤ fuel
      → (m' : Arrays A) × (sequential_sort compare fuel m lines nlines temp to_temp ≡ some m')
        × Sorts compare m m' lines nlines temp to_temp
  sequential_sort_lem zero m lines nlines temp to_temp two enough = absurd (omega arith)
  sequential_sort_lem (suc fuel) m lines nlines temp to_temp two enough =
      elim (Bool-cases (nlines == 2)) [
        | inl e ↦
            let here : nlines ≡ 2 = ground (arith, e) in
            rw here (
              sort_two compare m lines temp to_temp,
              step_two fuel m lines temp to_temp,
              sort_two_lem compare m lines temp to_temp,
            )
        | inr e ↦
            let more : 3 ≤ nlines = ground (arith, e) in
            let (m', h, hi) =
              sequential_sort_lem fuel m (lines + nlines / 2) (nlines - nlines / 2)
                (if to_temp then temp + nlines / 2 else temp) to_temp (omega arith) (omega arith) in
            let (m'', l, lo) = lo_part fuel m' lines nlines temp to_temp more (λ two_lo.
              sequential_sort_lem fuel m' lines (nlines / 2) temp (not to_temp) two_lo
                (omega arith)) in
            (
              merge_parts compare m'' lines nlines temp to_temp,
              step_more fuel m m' m'' lines nlines temp to_temp e h l,
              hi_then_lo m m' m'' lines nlines temp to_temp two hi lo,
            )
      ]
