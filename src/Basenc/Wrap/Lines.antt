-- ===== src/Basenc/Wrap/Lines.antt =====
-- What wrap_write writes, byte by byte: the loop of block writes against a column counter.
use Prim.Native.Nat.{min}
use native.Mathlib.Nat.{add-zero}
use lmcas.Base.{
  ◌≢◌, ℕ, zero, suc, ◌+◌, ◌-◌, ◌*◌, ◌^◌, ◌≤◌, ◌<◌, ◌≡◌, ◌≢◌, refl, false, some, [], ◌∷◌, ◌++◌,
  Bytes, newline, ◌==◌, if◌then◌else◌, length, take, drop, keep, arith, Bool-cases, ==_iff, All,
  ◌⊎◌, length-drop, ap, sym, ◌∙◌, inl, inr,
}
use lmcas.Basenc.Codec.{is_text}
use lmcas.Basenc.Wrap.{to_write, wrap_loop, wrap_write, prepend}

-- One byte after another: a full line is ended before the next byte is written.
unfoldable pub wrap_bytes : ℕ → ℕ → Bytes → Bytes × ℕ
wrap_bytes w col [] = ([], col)
wrap_bytes w col (c ∷ cs) =
    if col == w
    then (let (text, col') = wrap_bytes w 1 cs in (newline ∷ c ∷ text, col'))
    else (let (text, col') = wrap_bytes w (col + 1) cs in (c ∷ text, col'))

abbrev before : Bytes → Bytes × ℕ → Bytes × ℕ
before text r = (text ++ r.0, r.1)

wrap_bytes_one :
    (w col c : ℕ) (cs : Bytes)
    → col < w
    → wrap_bytes w col (c ∷ cs) ≡ before (c ∷ []) (wrap_bytes w (col + 1) cs)
unfolding wrap_bytes
wrap_bytes_one w col c cs h = ground arith

-- Bytes that fit the line are written as they are.
wrap_bytes_fit :
    (w col n : ℕ) (cs : Bytes)
    → col + n ≤ w
    → n ≤ length cs
    → wrap_bytes w col cs ≡ before (take n cs) (wrap_bytes w (col + n) (drop n cs))
wrap_bytes_fit w col zero cs h k = rw add-zero
wrap_bytes_fit w col (suc n) [] h k = absurd (omega arith)
wrap_bytes_fit w col (suc n) (c ∷ cs) h k =
    wrap_bytes_one w col c cs (omega arith)
    ∙ ap (before (c ∷ [])) (wrap_bytes_fit w (col + 1) n cs (omega arith) (omega arith))
    ∙ ap (λ (m : ℕ). before (c ∷ take n cs) (wrap_bytes w m (drop n cs))) (omega arith)

wrap_bytes_full :
    (w c : ℕ) (cs : Bytes)
    → 0 < w
    → wrap_bytes w w (c ∷ cs) ≡ before (newline ∷ []) (wrap_bytes w 0 (c ∷ cs))
unfolding wrap_bytes
wrap_bytes_full w c cs h = ground arith

to_write_lem :
    (w col : ℕ) (buffer : Bytes)
    → col ≤ w
    → w < 2 ^ 64
    → to_write w col buffer ≡ min (w - col) (length buffer)
unfolding to_write
to_write_lem w col buffer h k = omega arith

wrap_loop_step :
    (fuel w col c : ℕ) (cs : Bytes) (n : ℕ)
    → to_write w col (c ∷ cs) ≡ n
    → wrap_loop (suc fuel) w col (c ∷ cs) ≡ (
        if n == 0
        then prepend (newline ∷ []) (wrap_loop fuel w 0 (c ∷ cs))
        else prepend (take n (c ∷ cs)) (wrap_loop fuel w (col + n) (drop n (c ∷ cs))))
unfolding wrap_loop
wrap_loop_step fuel w col c cs n e = rw e

-- `k` is 1 where the line is known to have room: the next round then writes.
wrap_loop-bytes :
    (fuel w col k : ℕ) (cs : Bytes)
    → 0 < w
    → w < 2 ^ 64
    → k ≤ 1
    → k + col ≤ w
    → 2 * length cs ≤ fuel + k
    → wrap_loop fuel w col cs ≡ some (wrap_bytes w col cs)
wrap_loop-bytes fuel w col k [] h h' hk hc hf = unfold wrap_loop wrap_bytes in refl
wrap_loop-bytes zero w col k (c ∷ cs) h h' hk hc hf = absurd (omega arith)
wrap_loop-bytes (suc fuel) w col k (c ∷ cs) h h' hk hc hf =
    let n = min (w - col) (length (c ∷ cs)) in
    let e = wrap_loop_step fuel w col c cs n (to_write_lem w col (c ∷ cs) (omega arith) h') in
    let broken = wrap_loop-bytes fuel w 0 1 (c ∷ cs) h h' in
    let written = wrap_loop-bytes fuel w (col + n) 0 (drop n (c ∷ cs)) h h' (omega arith) in
    elim (Bool-cases (n == 0)) [
      | inl z ↦
          let full : col ≡ w = ground arith in
          e
          ∙ rw (z, broken (omega arith) (omega arith) (ground arith))
              (ap some (rw full (sym (wrap_bytes_full w c cs h))))
      | inr z ↦
          let fits : col + n ≤ w = omega arith in
          let shorter = length-drop n (c ∷ cs) in
          e
          ∙ rw (z, written (omega arith) (ground (arith, shorter)))
              (ap some (sym (wrap_bytes_fit w col n (c ∷ cs) fits (omega arith))))
    ]

-- wrap_write ends, and writes line by line: for every buffer and every column in the line.
pub wrap_write-bytes :
    (w col : ℕ) (buffer : Bytes)
    → 0 < w
    → w < 2 ^ 64
    → col ≤ w
    → wrap_write buffer w col ≡ some (wrap_bytes w col buffer)
unfolding wrap_write
wrap_write-bytes w col buffer h h' hc =
    let nonzero : (w == 0) ≡ false = ground arith in
    rw nonzero (
      wrap_loop-bytes (2 * length buffer) w col 0 buffer h h' (omega arith) (omega arith)
        (omega arith))

-- Writing a buffer in two calls is writing it in one.
pub wrap_bytes-append :
    (w col : ℕ) (xs ys : Bytes)
    → wrap_bytes w col (xs ++ ys)
      ≡ before (wrap_bytes w col xs).0 (wrap_bytes w (wrap_bytes w col xs).1 ys)
unfolding wrap_bytes
wrap_bytes-append w col [] ys = refl
wrap_bytes-append w col (c ∷ xs) ys =
    ground (arith, wrap_bytes-append w 1 xs ys, wrap_bytes-append w (col + 1) xs ys)

pub keep-All : (xs : Bytes) → All (λ ch. ch ≢ newline) xs → keep is_text xs ≡ xs
keep-All [] h = refl
keep-All (x ∷ xs) (hx, hxs) = ground (arith, keep-All xs hxs)

-- Line breaks apart, the text is the buffer.
pub keep-wrap_bytes :
    (w col : ℕ) (cs : Bytes) → keep is_text (wrap_bytes w col cs).0 ≡ keep is_text cs
unfolding wrap_bytes
keep-wrap_bytes w col [] = refl
keep-wrap_bytes w col (c ∷ cs) =
    ground (arith, keep-wrap_bytes w 1 cs, keep-wrap_bytes w (col + 1) cs)

-- From column `col` on, a line is broken exactly where it has `w` bytes, and the text ends at
-- column `last`.
abbrev pub IsWrapped : ℕ → ℕ → ℕ → Bytes → Type 0
IsWrapped w last col [] = last ≡ col
IsWrapped w last col (c ∷ text) =
    ((c ≡ newline) × (col ≡ w) × IsWrapped w last 0 text)
    ⊎ ((c ≢ newline) × (col < w) × IsWrapped w last (col + 1) text)

pub wrap_bytes-IsWrapped :
    (w col : ℕ) (cs : Bytes)
    → 0 < w
    → col ≤ w
    → All (λ c. c ≢ newline) cs
    → IsWrapped w (wrap_bytes w col cs).1 col (wrap_bytes w col cs).0
unfolding wrap_bytes
wrap_bytes-IsWrapped w col [] hw hc hs = refl
wrap_bytes-IsWrapped w col (c ∷ cs) hw hc (hn, hs) = elim (Bool-cases (col == w)) [
  | inl full ↦ rw full (
      inl (
        refl,
        (==_iff col w).0 full,
        inr (hn, hw, wrap_bytes-IsWrapped w 1 cs hw (omega arith) hs),
      ))
  | inr room ↦
      let lt : col < w = ground arith in
      rw room (inr (hn, lt, wrap_bytes-IsWrapped w (col + 1) cs hw (omega arith) hs))
]

pub wrap_bytes_column : (w col : ℕ) (cs : Bytes) → 0 < w → col ≤ w → (wrap_bytes w col cs).1 ≤ w
unfolding wrap_bytes
wrap_bytes_column w col [] hw hc = hc
wrap_bytes_column w col (c ∷ cs) hw hc =
    ground (arith, wrap_bytes_column w 1 cs hw hw, wrap_bytes_column w (col + 1) cs hw)

-- On a buffer with no line break wrap_write ends; what it writes has its line breaks exactly where
-- a line has `w` bytes, is the buffer without them, and ends at a column in the line.
pub wrap_write_lines :
    (w col : ℕ) (buffer : Bytes)
    → 0 < w
    → w < 2 ^ 64
    → col ≤ w
    → All (λ c. c ≢ newline) buffer
    → (text : Bytes) × (col' : ℕ) × (wrap_write buffer w col ≡ some (text, col'))
      × IsWrapped w col' col text
      × (keep is_text text ≡ buffer)
      × (col' ≤ w)
wrap_write_lines w col buffer hw h' hc hs = (
  (wrap_bytes w col buffer).0,
  (wrap_bytes w col buffer).1,
  wrap_write-bytes w col buffer hw h' hc,
  wrap_bytes-IsWrapped w col buffer hw hc hs,
  keep-wrap_bytes w col buffer ∙ keep-All buffer hs,
  wrap_bytes_column w col buffer hw hc,
)
