-- ===== src/Sort/Check/Laws.antt =====
-- check answers true exactly on files whose lines are in order, whatever the buffers are.
use Prim.Native.Nat.{Ordering}
use lmcas.Base.{
  Bool, true, false, not, List, [], ◌∷◌, ◌++◌, Option, none, some, Bytes, All, ◌≡◌, refl, sym, ap,
  ◌∙◌, Bool-cases, inl, inr, ◌↔◌, Option-cases, arith,
}
use lmcas.Sort.Compare.{Options, compare}
use lmcas.Sort.Compare.Laws.Preorder.{Chain, AllFit, compare-IsComparison}
use lmcas.Sort.Check.{Buffer, is_disorder, check_successors, follows, check}

abbrev pub all_lines : List Buffer → List Bytes
all_lines [] = []
all_lines (buf ∷ bufs) = (buf.first ∷ buf.others) ++ all_lines bufs

-- Each line goes before every later one: it is not above it, and with --unique it is below it.
abbrev pub IsInOrder : Options → List Bytes → Type 0
IsInOrder options [] = Unit
IsInOrder options (x ∷ lines) =
    All (λ y. is_disorder (not options.unique) (compare options x y) ≡ false) lines
    × IsInOrder options lines

abbrev IsInOrderAfter : Options → Option Bytes → List Bytes → Type 0
IsInOrderAfter options none lines = IsInOrder options lines
IsInOrderAfter options (some temp) lines = IsInOrder options (temp ∷ lines)

chain-in_order :
    (nonunique : Bool) (p q r : Ordering)
    → Chain p q r
    → is_disorder nonunique p ≡ false
    → is_disorder nonunique q ≡ false
    → is_disorder nonunique r ≡ false
chain-in_order nonunique Ordering.lt Ordering.lt r h hp hq = ap (is_disorder nonunique) h
chain-in_order nonunique Ordering.lt Ordering.eq r h hp hq = ap (is_disorder nonunique) h
chain-in_order nonunique Ordering.lt Ordering.gt r h hp hq = cc hq
chain-in_order nonunique Ordering.eq q r h hp hq = ap (is_disorder nonunique) h ∙ hq
chain-in_order nonunique Ordering.gt q r h hp hq = cc hp

module _ (options : Options) (fit : AllFit options) where
  abbrev Before : Bytes → Bytes → Type 0
  Before x y = is_disorder (not options.unique) (compare options x y) ≡ false

  Before-trans : (x y z : Bytes) → Before x y → Before y z → Before x z
  Before-trans x y z hxy hyz =
      chain-in_order (not options.unique) (compare options x y) (compare options y z)
        (compare options x z) ((compare-IsComparison options fit).chain x y z) hxy hyz

  All-Before :
      (x y : Bytes) (lines : List Bytes) → Before x y → All (Before y) lines → All (Before x) lines
  All-Before x y [] h a = tt
  All-Before x y (z ∷ lines) h (hz, a) = (Before-trans x y z h hz, All-Before x y lines h a)

  IsInOrder-first :
      (x y : Bytes) (lines : List Bytes)
      → Before x y
      → IsInOrder options (y ∷ lines)
      → IsInOrder options (x ∷ y ∷ lines)
  IsInOrder-first x y lines hy (ay, rest) = ((hy, All-Before x y lines hy ay), (ay, rest))

  successors_end :
      (x : Bytes) (ys rest : List Bytes)
      → IsInOrder options (x ∷ ys ++ rest)
      → (last : Bytes) × (check_successors options x ys ≡ some last)
        × IsInOrder options (last ∷ rest)
  unfolding check_successors
  successors_end x [] rest h = (x, refl, h)
  successors_end x (y ∷ ys) rest h =
      let ((hy, hx), further) = h in
      let (last, ends, ordered) = successors_end y ys rest further in (last, rw hy ends, ordered)

  stopped :
      (x y : Bytes) (ys : List Bytes) (last : Bytes)
      → is_disorder (not options.unique) (compare options x y) ≡ true
      → ¬ (check_successors options x (y ∷ ys) ≡ some last)
  unfolding check_successors
  stopped x y ys last disorder e = cc (rw disorder at e)

  step :
      (x y : Bytes) (ys : List Bytes)
      → Before x y
      → check_successors options x (y ∷ ys) ≡ check_successors options y ys
  unfolding check_successors
  step x y ys fine = rw fine refl

  check_disorder :
      (temp : Option Bytes) (buf : Buffer) (bufs : List Buffer)
      → check_successors options buf.first buf.others ≡ none
      → check options temp (buf ∷ bufs) ≡ false
  unfolding check
  check_disorder temp buf bufs d = rw (d, check) refl

  check_more :
      (temp : Option Bytes) (buf : Buffer) (bufs : List Buffer) (last : Bytes)
      → check_successors options buf.first buf.others ≡ some last
      → follows options temp buf.first ≡ true
      → check options temp (buf ∷ bufs) ≡ check options (some last) bufs
  unfolding check
  check_more temp buf bufs last ends f = rw (ends, check, f) refl

  check_not_after :
      (temp : Option Bytes) (buf : Buffer) (bufs : List Buffer) (last : Bytes)
      → check_successors options buf.first buf.others ≡ some last
      → follows options temp buf.first ≡ false
      → check options temp (buf ∷ bufs) ≡ false
  unfolding check
  check_not_after temp buf bufs last ends f = rw (ends, check, f) refl

  after :
      (temp : Option Bytes) (line : Bytes) (lines : List Bytes)
      → follows options temp line ≡ true
      → IsInOrder options (line ∷ lines)
      → IsInOrderAfter options temp (line ∷ lines)
  unfolding follows
  after none line lines f h = h
  after (some temp) line lines f h = IsInOrder-first temp line lines (grind (arith, f)) h

  not_after :
      (temp : Option Bytes) (line : Bytes) (lines : List Bytes)
      → IsInOrderAfter options temp (line ∷ lines)
      → (follows options temp line ≡ true) × IsInOrder options (line ∷ lines)
  unfolding follows
  not_after none line lines h = (refl, h)
  not_after (some temp) line lines ((hl, hs), rest) = (ap not hl, rest)

  successors-IsInOrder :
      (x : Bytes) (ys rest : List Bytes) (last : Bytes)
      → check_successors options x ys ≡ some last
      → IsInOrder options (last ∷ rest)
      → IsInOrder options (x ∷ ys ++ rest)
  successors-IsInOrder x [] rest last e h =
      let same : last ≡ x = unfold check_successors in cc e in rw (same) at h
  successors-IsInOrder x (y ∷ ys) rest last e h =
      elim (Bool-cases (is_disorder (not options.unique) (compare options x y))) [
        | inl disorder ↦ absurd (stopped x y ys last disorder e)
        | inr fine ↦
            IsInOrder-first x y (ys ++ rest) fine
              (successors-IsInOrder y ys rest last (sym (step x y ys fine) ∙ e) h)
      ]

  check-IsInOrder :
      (temp : Option Bytes) (bufs : List Buffer)
      → check options temp bufs ≡ true
      → IsInOrderAfter options temp (all_lines bufs)
  check-IsInOrder none [] e = tt
  check-IsInOrder (some temp) [] e = (tt, tt)
  check-IsInOrder temp (buf ∷ bufs) e =
      let lines = buf.others ++ all_lines bufs in
      elim (Option-cases (check_successors options buf.first buf.others)) [
        | inl d ↦ cc (e, check_disorder temp buf bufs d)
        | inr (last, ends) ↦ elim (Bool-cases (follows options temp buf.first)) [
          | inl f ↦
              let rest =
                check-IsInOrder (some last) bufs (sym (check_more temp buf bufs last ends f) ∙ e) in
              after temp buf.first lines f
                (successors-IsInOrder buf.first buf.others (all_lines bufs) last ends rest)
          | inr f ↦ cc (e, check_not_after temp buf bufs last ends f)
        ]
      ]

  IsInOrder-check :
      (temp : Option Bytes) (bufs : List Buffer)
      → IsInOrderAfter options temp (all_lines bufs)
      → check options temp bufs ≡ true
  IsInOrder-check temp [] h = unfold check in refl
  IsInOrder-check temp (buf ∷ bufs) h =
      let lines = buf.others ++ all_lines bufs in
      let (f, ordered) = not_after temp buf.first lines h in
      let (last, ends, rest) = successors_end buf.first buf.others (all_lines bufs) ordered in
      check_more temp buf bufs last ends f ∙ IsInOrder-check (some last) bufs rest

-- In the C locale, and for all options and all keys that compare bytes and with which no pointer into
-- a line wraps, check says that a file is in order exactly when its lines are, over all its buffers:
-- no line is above a later one, and with --unique each line is below every later one.
pub check_iff_IsInOrder :
    (options : Options) (bufs : List Buffer)
    → AllFit options
    → (check options none bufs ≡ true) ↔ IsInOrder options (all_lines bufs)
check_iff_IsInOrder options bufs fit =
    (check-IsInOrder options fit none bufs, IsInOrder-check options fit none bufs)
