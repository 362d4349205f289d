-- ===== src/Basenc/Stream/RoundTrip.antt =====
-- do_decode after do_encode.
use lmcas.Base.{
  ℕ, suc, zero, ◌^◌, ◌<◌, ◌≡◌, ◌≢◌, refl, sym, ap, ◌∙◌, true, false, some, [], ◌∷◌, append-nil,
  Bytes, IsByte, newline, arith, keep, keep-append, All,
}
use lmcas.Basenc.Codec.{Codec, Decoded, is_text}
use lmcas.Basenc.Laws.{IsLawful, IsInverse, encoded}
use lmcas.Basenc.Wrap.Lines.{wrap_bytes, keep-All, keep-wrap_bytes}
use lmcas.Basenc.Stream.{
  emit, exit_success, clean, do_encode, do_decode, enc_blocksize, dec_blocksize,
}
use lmcas.Basenc.Stream.Encode.{wrap_text, last_break, encoded_run, do_encode-wrap_text}
use lmcas.Basenc.Stream.Refines.{chain, finish, decode_whole, do_decode-decode_whole}

keep-last_break : (w col : ℕ) → keep is_text (last_break w col) ≡ []
keep-last_break w col = ground arith

keep-wrap_text : (w col : ℕ) (e : Bytes) → keep is_text (wrap_text w col e).0 ≡ keep is_text e
unfolding wrap_text
keep-wrap_text w col e = ground (arith, keep-wrap_bytes w col e)

keep-encoded_run :
    (w : ℕ) (e : Bytes) → All (λ ch. ch ≢ newline) e → keep is_text (encoded_run w 0 e).out ≡ e
keep-encoded_run w e h =
    keep-append is_text (wrap_text w 0 e).0 (last_break w (wrap_text w 0 e).1)
    ∙ rw (keep-last_break, keep-wrap_text, append-nil) (keep-All e h)

encoded_run_nil : (w : ℕ) → (encoded_run w 0 []).out ≡ []
unfolding wrap_text wrap_bytes
encoded_run_nil zero = refl
encoded_run_nil (suc w) = ground arith

module _ (c : Codec) (lawful : IsLawful c) (inverse : IsInverse enc_blocksize c lawful) where
  -- Line breaks do not change what the decoder does with an encoding.
  unwrapped :
      (w : ℕ) (xs e : Bytes)
      → All IsByte xs
      → c.base_encode xs ≡ some e
      → c.base_decode_ctx c.ctx_init (encoded_run w 0 e).out ≡ c.base_decode_ctx c.ctx_init e
  unwrapped w [] e b p =
      encoded
        (λ e. c.base_decode_ctx c.ctx_init (encoded_run w 0 e).out ≡ c.base_decode_ctx c.ctx_init e)
        [] e (sym inverse.encode_nil ∙ p) (ap (c.base_decode_ctx c.ctx_init) (encoded_run_nil w))
  unwrapped w (x ∷ xs) e b p =
      let bare = keep-encoded_run w e (inverse.encode_text (x ∷ xs) e b p) in
      inverse.decode_is_text c.ctx_init (encoded_run w 0 e).out
        (λ z. inverse.encode-ne-nil x xs e p (sym bare ∙ z))
      ∙ ap (c.base_decode_ctx c.ctx_init) bare

  finish_lem :
      (s : c.State)
      → lawful.flush s ≡ true
      → finish c s ≡ record { out = []; status = exit_success }
  unfolding finish
  finish_lem s h = rw (lawful.decode_nil s, h)

  decode_whole_done :
      (file xs : Bytes) (s : c.State)
      → c.base_decode_ctx c.ctx_init file ≡ record { out = xs; ctx = some s }
      → lawful.flush s ≡ true
      → decode_whole c c.ctx_init (clean c false file) ≡ record { out = xs; status = exit_success }
  unfolding clean decode_whole
  decode_whole_done file xs s e h =
      ap (λ (r : Decoded c.State). chain r (finish c)) e
      ∙ ap (emit xs) (finish_lem s h)
      ∙ rw append-nil

  decoded :
      (w : ℕ) (xs e : Bytes)
      → 0 < c.base_length dec_blocksize
      → All IsByte xs
      → c.base_encode xs ≡ some e
      → do_decode c false (encoded_run w 0 e).out ≡ record { out = xs; status = exit_success }
  decoded w xs e hd b p =
      let (s, same, empty) = inverse.decode_encode xs e b p in
      do_decode-decode_whole c lawful false (encoded_run w 0 e).out hd
      ∙ decode_whole_done (encoded_run w 0 e).out xs s (unwrapped w xs e b p ∙ same) empty

  -- For any number of columns, decoding what was encoded gives the file back.
  pub do_decode-do_encode :
      (w : ℕ) (xs e : Bytes)
      → w < 2 ^ 64
      → 0 < c.base_length dec_blocksize
      → All IsByte xs
      → c.base_encode xs ≡ some e
      → ((do_encode c w xs).status ≡ exit_success)
        × (do_decode c false (do_encode c w xs).out ≡ record { out = xs; status = exit_success })
  do_decode-do_encode w xs e hw hd b p =
      let run = do_encode-wrap_text c lawful inverse w xs e hw p in
      rw run (refl, decoded w xs e hd b p)
