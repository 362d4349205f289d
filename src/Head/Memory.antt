-- ===== src/Head/Memory.antt =====
-- Instances of the interfaces of Head/Input, for runs: a file that is read without fault, and one
-- of which the second read fails.
use lmcas.Base.{
  ℕ, zero, suc, ◌≤◌, ◌<◌, Bool, true, false, [], ◌∷◌, ◌++◌, Option, none, some, Bytes, length, take,
  drop, length-take, take-append-drop, drop_all, ◌≡◌, refl, sym, ap, subst, ◌∙◌, arith,
}
use mathlib.Core.Option
use lmcas.Head.Input.{Reader, FullReader}

-- The chunk and the state behind it, with a default.
abbrev pub chunk_of : Option (Bytes × Bytes) → Bytes
chunk_of none = []
chunk_of (some read) = read.0

abbrev pub state_of : Option (Bytes × Bytes) → Bytes
state_of none = []
state_of (some read) = read.1

-- What a read of some bytes leaves is nothing when it gave nothing.
pub none_taken : (count : ℕ) (text : Bytes) → 0 < count → take count text ≡ [] → text ≡ []
none_taken zero text h e = absurd (omega arith)
none_taken (suc count) [] h e = refl
none_taken (suc count) (c ∷ text) h e = cc e

pub taken-length : (count : ℕ) (text : Bytes) → length (take count text) ≤ count
taken-length count text = ground (arith, length-take count text)

pub taken_all : (count : ℕ) (text : Bytes) → length (take count text) < count → length text ≤ count
taken_all count text h = ground (arith, length-take count text, h)

-- A file in memory.
abbrev pub memory : Reader
memory = record {
  Fd = Bytes;
  rest = λ text. text;
  safe_read = λ count text. some (take count text, drop count text);
  gives_next = λ count fd fd' chunk r.
      sym (take-append-drop count fd)
      ∙ ap (λ (t : Bytes). t ++ drop count fd) (ap chunk_of r)
      ∙ ap (λ (t : Bytes). chunk ++ t) (ap state_of r);
  at_most_count = λ count fd fd' chunk r.
      subst (λ (t : Bytes). length t ≤ count) (ap chunk_of r) (taken-length count fd);
  nothing_at_end = λ count fd fd' h r. none_taken count fd h (ap chunk_of r);
}

abbrev pub full_memory : FullReader
full_memory = record {
  Fd = Bytes;
  rest = λ text. text;
  full_read = λ count text. ((take count text, false), drop count text);
  gives_next = λ count fd. sym (take-append-drop count fd);
  at_most_count = λ count fd. taken-length count fd;
  fewer_at_end = λ count fd h f. drop_all count fd (taken_all count fd h);
}

-- A file in memory of which only the first read goes well: behind it comes `true`.
abbrev torn_read : ℕ → Bool × Bytes → Option (Bytes × (Bool × Bytes))
torn_read count (false, text) = some (take count text, (true, drop count text))
torn_read count (true, text) = none

pub torn-gives_next :
    (count : ℕ) (fd fd' : Bool × Bytes) (chunk : Bytes)
    → torn_read count fd ≡ some (chunk, fd')
    → fd.1 ≡ chunk ++ fd'.1
torn-gives_next count (false, text) (b, text') chunk r =
    memory.gives_next count text text' chunk (ap (Option.map (λ read. (read.0, read.1.1))) r)
torn-gives_next count (true, text) fd' chunk r = cc r

pub torn-at_most_count :
    (count : ℕ) (fd fd' : Bool × Bytes) (chunk : Bytes)
    → torn_read count fd ≡ some (chunk, fd')
    → length chunk ≤ count
torn-at_most_count count (false, text) (b, text') chunk r =
    memory.at_most_count count text text' chunk (ap (Option.map (λ read. (read.0, read.1.1))) r)
torn-at_most_count count (true, text) fd' chunk r = cc r

pub torn-nothing_at_end :
    (count : ℕ) (fd fd' : Bool × Bytes)
    → 0 < count
    → torn_read count fd ≡ some ([], fd')
    → fd.1 ≡ []
torn-nothing_at_end count (false, text) (b, text') h r =
    memory.nothing_at_end count text text' h (ap (Option.map (λ read. (read.0, read.1.1))) r)
torn-nothing_at_end count (true, text) fd' h r = cc r

abbrev pub torn : Reader
torn = record {
  Fd = Bool × Bytes;
  rest = λ fd. fd.1;
  safe_read = torn_read;
  gives_next = torn-gives_next;
  at_most_count = torn-at_most_count;
  nothing_at_end = torn-nothing_at_end;
}
