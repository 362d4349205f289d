-- ===== src/Sort/Check.antt =====
-- annotated_Dataset-1/sort.c: check, which tells whether a file is in order.
--
-- The file comes in buffers of lines, as fillbuf fills them: a buffer has a line. Only the result
-- is modelled, without the message for the line in disorder.
use Prim.Native.Nat.{Ordering}
use lmcas.Base.{Bool, true, false, not, List, [], ◌∷◌, Option, none, some, Bytes, if◌then◌else◌}
use lmcas.Sort.Order.{at_most}
use lmcas.Sort.Compare.{Options, compare}
pub mod Laws

-- A buffer: the first line and the others.
pub record Buffer : Type 0 where
  pub first : Bytes
  pub others : List Bytes

-- `nonunique <= diff`, where nonunique is 0 or 1.
abbrev pub is_disorder : Bool → Ordering → Bool
is_disorder nonunique Ordering.lt = false
is_disorder nonunique Ordering.eq = not nonunique
is_disorder nonunique Ordering.gt = true

module _ (options : Options) where
  -- Each line of a buffer with its successor. The result is the last line, none on disorder.
  unfoldable pub check_successors : Bytes → List Bytes → Option Bytes
  unfolding compare
  check_successors line [] = some line
  check_successors line (next ∷ lines) =
      let rest = check_successors next lines in
      if is_disorder (not options.unique) (compare options line next) then none else rest

  -- Whether the line that is saved from the buffer before, if any, goes before the line.
  unfoldable pub follows : Option Bytes → Bytes → Bool
  unfolding compare
  follows none line = true
  follows (some temp) line = not (is_disorder (not options.unique) (compare options temp line))

  unfoldable pub check : Option Bytes → List Buffer → Bool
  unfolding check_successors follows
  check temp [] = true
  check temp (buf ∷ bufs) = elim (check_successors buf.first buf.others) [
    | none ↦ false
    | some last ↦
        let rest = check (some last) bufs in if follows temp buf.first then rest else false
  ]
