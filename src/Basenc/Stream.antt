-- ===== src/Basenc/Stream.antt =====
-- annotated_Dataset-1/basenc.c: do_encode and do_decode over an encoding.
--
-- A file is the list of the bytes that are not read yet. As the C standard has it, `fread` of n
-- bytes gives n bytes, or all that are left and the end-of-file mark when they are fewer. Read and
-- write errors (which end the program) are not modelled. Loops run on fuel: `out_of_fuel` is no
-- status of the program.
pub mod Encode
pub mod Fill
pub mod Refines
pub mod RoundTrip
use lmcas.Base.{
  ℕ, zero, suc, ◌+◌, ◌-◌, ◌*◌, Bool, true, false, not, ◌&&◌, ◌||◌, Option, none, some, [], ◌∷◌,
  ◌++◌, Bytes, newline, ltb, ◌==◌, if◌then◌else◌, length, take, drop, keep,
}
use lmcas.Basenc.Codec.{Codec, Decoded}
use lmcas.Basenc.Wrap.{wrap_write}

pub data Status : Type 0 where
  exit_success exit_failure out_of_fuel : Status

-- What a run wrote, and how it ended.
pub record Run : Type 0 where
  pub out : Bytes
  pub status : Status

abbrev pub emit : Bytes → Run → Run
emit o r = record r { out = o ++ r.out }

-- fread: the bytes read, the bytes left, and feof afterwards.
abbrev pub fread_got : ℕ → Bytes → Bytes
fread_got n file = take n file

abbrev pub fread_left : ℕ → Bytes → Bytes
fread_left n file = drop n file

abbrev pub fread_eof : ℕ → Bytes → Bool
fread_eof n file = ltb (length file) n

abbrev pub enc_blocksize : ℕ
enc_blocksize = 1024 * 3 * 10

abbrev pub dec_blocksize : ℕ
dec_blocksize = 1024 * 5

-- What became of a block: the text was written up to a new column, or the run ends.
pub data Block : Type 0 where
  wrote : Bytes → ℕ → Block
  ended : Status → Block

unfoldable pub written : Option (Bytes × ℕ) → Block
written none = ended out_of_fuel
written (some (text, column)) = wrote text column

-- `if (wrap_column && current_column > 0 && ...)` behind the loop.
unfoldable pub end_line : ℕ → ℕ → Bytes
end_line wrap_column column = if not (wrap_column == 0) && ltb 0 column then newline ∷ [] else []

module _ (c : Codec) where
  -- `if (sum > 0)`: one block is encoded, and BASE_LENGTH (sum) bytes of the buffer are written.
  unfoldable pub encode_block : ℕ → ℕ → Bytes → Block
  unfolding written
  encode_block wrap_column column [] = wrote [] column
  encode_block wrap_column column (b ∷ inbuf) = elim (c.base_encode (b ∷ inbuf)) [
    | none ↦ ended exit_failure
    | some outbuf ↦
        written (wrap_write (take (c.base_length (length (b ∷ inbuf))) outbuf) wrap_column column)
  ]

  -- The outer loop of do_encode over blocks of `size` bytes. The inner loop reads until the block
  -- is full or the file is at its end, which one fread does. A short block is the last one.
  unfoldable pub encode_rounds : ℕ → ℕ → ℕ → ℕ → Bytes → Run
  unfolding encode_block end_line
  encode_rounds zero size wrap_column column file = record { out = []; status = out_of_fuel }
  encode_rounds (suc fuel) size wrap_column column file =
      elim (encode_block wrap_column column (fread_got size file)) [
        | ended status ↦ record { out = []; status = status }
        | wrote text column' ↦
            let more = encode_rounds fuel size wrap_column column' (fread_left size file) in
            emit text (
              if fread_eof size file
              then record { out = end_line wrap_column column'; status = exit_success }
              else more)
      ]

  unfoldable pub do_encode : ℕ → Bytes → Run
  unfolding encode_rounds
  do_encode wrap_column file = encode_rounds (length file + 1) enc_blocksize wrap_column 0 file

  -- `isbase (inbuf[sum + i]) || inbuf[sum + i] == '='`
  unfoldable pub is_kept : ℕ → Bool
  is_kept ch = c.isbase ch || ch == b'='

  -- With --ignore-garbage the other bytes are moved out of the buffer.
  unfoldable pub clean : Bool → Bytes → Bytes
  unfolding is_kept
  clean ignore_garbage got = if ignore_garbage then keep is_kept got else got

-- The buffer that the inner loop of do_decode fills, the bytes left, and feof.
pub record Filled : Type 0 where
  pub inbuf : Bytes
  pub left : Bytes
  pub eof : Bool

module _ (c : Codec) where
  -- The inner loop of do_decode: it reads until `cap` bytes are kept, or the file is at its end.
  unfoldable pub fill : ℕ → ℕ → Bool → Bytes → Bytes → Option Filled
  unfolding clean
  fill zero cap ignore_garbage inbuf file = none
  fill (suc fuel) cap ignore_garbage inbuf file =
      let n = cap - length inbuf in
      let inbuf' = inbuf ++ clean c ignore_garbage (fread_got n file) in
      let again = fill fuel cap ignore_garbage inbuf' (fread_left n file) in
      if ltb (length inbuf') cap && not (fread_eof n file)
      then again
      else some (record { inbuf = inbuf'; left = fread_left n file; eof = fread_eof n file })

  -- The round `k == 1` at the end of the file: what the decoder still holds is asked for, unless
  -- ctx.i is 0.
  unfoldable pub flush_ctx : c.State → Run
  flush_ctx ctx =
      let r = c.base_decode_ctx ctx [] in
      if c.pending ctx == 0 then record { out = []; status = exit_success } else record {
        out = r.out;
        status = elim r.ctx [ none ↦ exit_failure | some ctx' ↦ exit_success ];
      }

  unfoldable pub decode_rounds : ℕ → ℕ → Bool → c.State → Bytes → Run
  unfolding fill flush_ctx
  decode_rounds zero cap ignore_garbage ctx file = record { out = []; status = out_of_fuel }
  decode_rounds (suc fuel) cap ignore_garbage ctx file =
      elim (fill (length file + 1) cap ignore_garbage [] file) [
        | none ↦ record { out = []; status = out_of_fuel }
        | some f ↦
            let r = c.base_decode_ctx ctx f.inbuf in
            elim r.ctx [
              | none ↦ record { out = r.out; status = exit_failure }
              | some ctx' ↦
                  let more = decode_rounds fuel cap ignore_garbage ctx' f.left in
                  emit r.out (if f.eof then flush_ctx ctx' else more)
            ]
      ]

  unfoldable pub do_decode : Bool → Bytes → Run
  unfolding decode_rounds
  do_decode ignore_garbage file =
      decode_rounds (length file + 1) (c.base_length dec_blocksize) ignore_garbage c.ctx_init file
