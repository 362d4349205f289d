-- ===== src/Basenc/Stream/Encode.antt =====
-- do_encode against the encoder applied to the whole file at once.
use lmcas.Base.{
  ℕ, zero, suc, ◌^◌, ◌≤◌, ◌<◌, ◌≡◌, refl, sym, ap, ◌∙◌, false, Option, none, some, [], ◌∷◌, ◌++◌,
  append_assoc, Bytes, arith, newline, ◌||◌, ◌==◌, if◌then◌else◌, length, take-append-drop,
  length-drop, length-take, take_all, Bool-cases, inl, inr,
}
use lmcas.Basenc.Codec.{Codec}
use lmcas.Basenc.Laws.{IsLawful, IsInverse, join_encoded, encoded}
use lmcas.Basenc.Wrap.{wrap_write}
use lmcas.Basenc.Wrap.Lines.{wrap_bytes, wrap_write-bytes, wrap_bytes-append, wrap_bytes_column}
use lmcas.Basenc.Stream.{
  Run, emit, exit_success, wrote, encode_block, encode_rounds, do_encode, end_line, enc_blocksize,
  fread_got, fread_left, fread_eof,
}

-- The text of `e` from a column on, in lines of `w` bytes, or in one line where `w` is 0.
unfoldable pub wrap_text : ℕ → ℕ → Bytes → Bytes × ℕ
wrap_text w col e = if w == 0 then (e, col) else wrap_bytes w col e

abbrev IsColumn : ℕ → ℕ → Type 0
IsColumn w col = (w < 2 ^ 64) × (0 < w → col ≤ w)

wrap_write-text :
    (w col : ℕ) (e : Bytes) → IsColumn w col → wrap_write e w col ≡ some (wrap_text w col e)
unfolding wrap_text
wrap_write-text zero col e h = unfold wrap_write in refl
wrap_write-text (suc w) col e h =
    wrap_write-bytes (suc w) col e (omega arith) h.0 (h.1 (omega arith)) ∙ ground arith

wrap_text-append :
    (w col : ℕ) (xs ys : Bytes)
    → wrap_text w col (xs ++ ys) ≡ (
      (wrap_text w col xs).0 ++ (wrap_text w (wrap_text w col xs).1 ys).0,
      (wrap_text w (wrap_text w col xs).1 ys).1,
    )
unfolding wrap_text
wrap_text-append w col xs ys = elim (Bool-cases (w == 0)) [
  | inl e ↦ rw e
  | inr e ↦ rw e (wrap_bytes-append w col xs ys)
]

wrap_text-IsColumn : (w col : ℕ) (e : Bytes) → IsColumn w col → IsColumn w (wrap_text w col e).1
unfolding wrap_text
wrap_text-IsColumn w col e (hw, hc) = (
  hw,
  λ pos.
      let nonzero : (w == 0) ≡ false = ground arith in
      rw nonzero (wrap_bytes_column w col e pos (hc pos)),
)

wrap_bytes_nil : (w col : ℕ) → wrap_bytes w col [] ≡ ([], col)
unfolding wrap_bytes
wrap_bytes_nil w col = refl

-- A line break where lines are broken and the last line is not empty.
abbrev pub last_break : ℕ → ℕ → Bytes
last_break w col = if w == 0 || col == 0 then [] else newline ∷ []

end_line-last_break : (w col : ℕ) → end_line w col ≡ last_break w col
unfolding end_line
end_line-last_break w col = ground arith

-- The run from a column on: the text, and the end of the last line.
abbrev pub encoded_run : ℕ → ℕ → Bytes → Run
encoded_run w col e = record {
  out = (wrap_text w col e).0 ++ last_break w (wrap_text w col e).1;
  status = exit_success;
}

encoded_run-append :
    (w col : ℕ) (a b : Bytes)
    → emit (wrap_text w col a).0 (encoded_run w (wrap_text w col a).1 b)
      ≡ encoded_run w col (a ++ b)
encoded_run-append w col a b = rw (wrap_text-append w col a b, append_assoc)

module _ (c : Codec) (lawful : IsLawful c) (size : ℕ) (inverse : IsInverse size c lawful) where
  open inverse use {encode_nil, encode_append, length_encode}

  encode_block_lem :
      (w col : ℕ) (xs e : Bytes)
      → IsColumn w col
      → c.base_encode xs ≡ some e
      → encode_block c w col xs ≡ wrote (wrap_text w col e).0 (wrap_text w col e).1
  unfolding encode_block
  encode_block_lem w col [] e h p =
      encoded (λ e. wrote [] col ≡ wrote (wrap_text w col e).0 (wrap_text w col e).1) [] e
        (sym encode_nil ∙ p) (unfold wrap_text in ground (arith, wrap_bytes_nil w col))
  encode_block_lem w col (x ∷ xs) e h p =
      rw (p, encode_block)
        (rw (
          take_all (c.base_length (length (x ∷ xs))) e (omega (arith, length_encode (x ∷ xs) e p)),
          wrap_write-text w col e h,
        ))

  join-cases :
      (d d' : Option Bytes) (e : Bytes)
      → join_encoded d d' ≡ some e
      → (a : Bytes) × (b : Bytes) × (d ≡ some a) × (d' ≡ some b) × (e ≡ a ++ b)
  join-cases none d' e h = cc
  join-cases (some a) none e h = cc
  join-cases (some a) (some b) e h = (a, b, refl, refl, ground arith)

  encode_rounds_step :
      (fuel w col : ℕ) (file text : Bytes) (col' : ℕ)
      → encode_block c w col (fread_got size file) ≡ wrote text col'
      → encode_rounds c (suc fuel) size w col file
        ≡ emit text (
            if fread_eof size file
            then record { out = end_line w col'; status = exit_success }
            else encode_rounds c fuel size w col' (fread_left size file))
  unfolding encode_rounds
  encode_rounds_step fuel w col file text col' e = rw (e, encode_rounds)

  encode_rounds-wrap_text :
      (fuel w col : ℕ) (file e : Bytes)
      → 0 < size
      → length file < fuel
      → IsColumn w col
      → c.base_encode file ≡ some e
      → encode_rounds c fuel size w col file ≡ encoded_run w col e
  encode_rounds-wrap_text zero w col file e hs hf h p = absurd (omega arith)
  encode_rounds-wrap_text (suc fuel) w col file e hs hf h p =
      elim (Bool-cases (fread_eof size file)) [
        | inl eof ↦
            let all : fread_got size file ≡ file = take_all size file (ground arith) in
            encode_rounds_step fuel w col file _ _
              (encode_block_lem w col (fread_got size file) e h (ap c.base_encode all ∙ p))
            ∙ rw (eof, end_line-last_break)
        | inr more ↦
            let full : length (fread_got size file) ≡ size =
              ground (arith, length-take size file) in
            let whole = ap c.base_encode (take-append-drop size file) ∙ p in
            let (a, b, pa, pb, ab) =
              join-cases _ _ e (sym (encode_append _ (fread_left size file) full) ∙ whole) in
            let ih =
              encode_rounds-wrap_text fuel w (wrap_text w col a).1 (fread_left size file) b hs
                (ground (arith, length-drop size file)) (wrap_text-IsColumn w col a h) pb in
            encode_rounds_step fuel w col file _ _
              (encode_block_lem w col (fread_got size file) a h pa)
            ∙ rw more (
                ap (emit (wrap_text w col a).0) ih
                ∙ encoded_run-append w col a b
                ∙ ap (encoded_run w col) (sym ab))
      ]

-- For a lawful encoding that decoding inverts and that encodes blocks of enc_blocksize bytes apart,
-- for fewer than 2 ^ 64 columns, and for a file that base_encode does encode, do_encode writes the
-- encoding of the whole file in lines from column 0, ends the last line, and succeeds.
pub do_encode-wrap_text :
    (c : Codec) (lawful : IsLawful c)
    → IsInverse enc_blocksize c lawful
    → (w : ℕ) (file e : Bytes) → w < 2 ^ 64
    → c.base_encode file ≡ some e
    → do_encode c w file ≡ encoded_run w 0 e
unfolding do_encode
do_encode-wrap_text c lawful inverse w file e hw p =
    encode_rounds-wrap_text c lawful enc_blocksize inverse _ w 0 file e (omega arith) (omega arith)
      (omega arith) p
