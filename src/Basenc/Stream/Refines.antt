-- ===== src/Basenc/Stream/Refines.antt =====
-- do_decode against the decoder applied to the whole input at once.
use mathlib.Core.Path.{subst, fun_ext}
use mathlib.Core.Option.{some-injective}
use lmcas.Base.{
  ℕ, zero, suc, ◌+◌, ◌≤◌, ◌<◌, ◌≡◌, refl, sym, ap, ◌∙◌, Bool, true, false, Option, none, some, [],
  ◌∷◌, ◌++◌, append_assoc, append-nil, Bytes, arith, ◌==◌, if◌then◌else◌, length, Bool-cases,
  Option-cases, inl, inr,
}
use lmcas.Basenc.Codec.{Codec, Decoded, then_decode}
use lmcas.Basenc.Laws.{IsLawful}
use lmcas.Basenc.Stream.Fill.{IsFilled, fill-IsFilled}
use lmcas.Basenc.Stream.{
  Run, emit, exit_success, exit_failure, Filled, clean, fill, flush_ctx, decode_rounds, do_decode,
  dec_blocksize,
}

module _ {S : Type 0} where
  -- A call of the decoder, and what is done with the state that it leaves.
  abbrev pub chain : Decoded S → (S → Run) → Run
  chain r k = elim r.ctx [
    | none ↦ record { out = r.out; status = exit_failure }
    | some s ↦ emit r.out (k s)
  ]

  chain-none :
      (r : Decoded S) (k : S → Run)
      → r.ctx ≡ none
      → chain r k ≡ record { out = r.out; status = exit_failure }
  chain-none r k e = rw e

  chain-some : (r : Decoded S) (k : S → Run) {s : S} → r.ctx ≡ some s → chain r k ≡ emit r.out (k s)
  chain-some r k e = rw e

  chain-then_decode :
      (o : Bytes) (x : Option S) (k : S → Decoded S) (f : S → Run)
      → chain (then_decode (record { out = o; ctx = x }) k) f
        ≡ chain (record { out = o; ctx = x }) (λ s. chain (k s) f)
  chain-then_decode o none k f = refl
  chain-then_decode o (some s) k f = emit-chain o (k s).out (k s).ctx f
    where
      emit-chain :
          (o o' : Bytes) (x : Option S) (f : S → Run)
          → chain (record { out = o ++ o'; ctx = x }) f
            ≡ emit o (chain (record { out = o'; ctx = x }) f)
      emit-chain o o' none f = refl
      emit-chain o o' (some s') f = rw append_assoc

-- The decoder applied to the whole input, and then asked for what it still holds.
module _ (c : Codec) where
  unfoldable pub finish : c.State → Run
  finish s = record {
    out = [];
    status = elim (c.base_decode_ctx s []).ctx [ none ↦ exit_failure | some s' ↦ exit_success ];
  }

  unfoldable pub decode_whole : c.State → Bytes → Run
  unfolding finish
  decode_whole s xs = chain (c.base_decode_ctx s xs) finish

module _ (c : Codec) (laws : IsLawful c) where
  open laws use {Valid, flush, decode_nil, decode_valid, decode_append, flush_pending}

  flush_ctx-finish : (s : c.State) → Valid s → flush_ctx c s ≡ finish c s
  unfolding flush_ctx finish
  flush_ctx-finish s v = elim (Bool-cases (flush s)) [
    | inl yes' ↦ rw (decode_nil s, yes') (ground arith)
    | inr no' ↦
        let pending : (c.pending s == 0) ≡ false = ground (arith, flush_pending s v) in
        rw (decode_nil s, no', pending)
  ]

  decode_whole_nil : (s : c.State) → decode_whole c s [] ≡ finish c s
  unfolding decode_whole finish
  decode_whole_nil s = elim (Bool-cases (flush s)) [
    | inl yes' ↦ rw (decode_nil s, yes') (rw (decode_nil s, yes'))
    | inr no' ↦ rw (decode_nil s, no')
  ]

  valid_after :
      (s s' : c.State) (xs : Bytes) → Valid s → (c.base_decode_ctx s xs).ctx ≡ some s' → Valid s'
  valid_after s s' [] v e = elim (Bool-cases (flush s)) [
    | inl yes' ↦
        let same : some s ≡ some s' = rw (decode_nil s, yes') at e in
        subst Valid (some-injective s s' same) v
    | inr no' ↦ let none' : none ≡ some s' = rw (decode_nil s, no') at e in cc
  ]
  valid_after s s' (x ∷ xs) v e = decode_valid s s' x xs v e

  decode_whole-append :
      (s : c.State) (x : ℕ) (xs ys : Bytes)
      → decode_whole c s (x ∷ xs ++ ys)
        ≡ chain (c.base_decode_ctx s (x ∷ xs)) (λ s'. decode_whole c s' ys)
  decode_whole-append s x xs [] =
      rw (append-nil, fun_ext decode_whole_nil) (unfold decode_whole in refl)
  decode_whole-append s x xs (y ∷ ys) =
      unfold decode_whole in
      rw (decode_append s x xs y ys) (
        chain-then_decode (c.base_decode_ctx s (x ∷ xs)).out (c.base_decode_ctx s (x ∷ xs)).ctx _ _)

  decode_rounds_step :
      (fuel size : ℕ) (ig : Bool) (s : c.State) (file : Bytes) (f : Filled)
      → fill c (length file + 1) size ig [] file ≡ some f
      → decode_rounds c (suc fuel) size ig s file
        ≡ chain
            (c.base_decode_ctx s f.inbuf)
            (λ s'. if f.eof then flush_ctx c s' else decode_rounds c fuel size ig s' f.left)
  unfolding decode_rounds
  decode_rounds_step fuel size ig s file f e = rw (e, decode_rounds)

  chain_cong :
      (s : c.State) (xs : Bytes) (k k' : c.State → Run)
      → ((s' : c.State) → (c.base_decode_ctx s xs).ctx ≡ some s' → k s' ≡ k' s')
      → chain (c.base_decode_ctx s xs) k ≡ chain (c.base_decode_ctx s xs) k'
  chain_cong s xs k k' h = elim (Option-cases (c.base_decode_ctx s xs).ctx) [
    | inl e ↦ rw e
    | inr (s', e) ↦ rw e (ap (emit (c.base_decode_ctx s xs).out) (h s' e))
  ]

  clean_nil : (ig : Bool) → clean c ig [] ≡ []
  unfolding clean
  clean_nil true = refl
  clean_nil false = refl

  -- The round that reaches the end of the file.
  last_round :
      (size : ℕ) (ig : Bool) (s : c.State) (file : Bytes) (f : Filled) (more : c.State → Run)
      → Valid s
      → IsFilled c ig size [] file f
      → f.eof ≡ true
      → chain (c.base_decode_ctx s f.inbuf) (λ s'. if f.eof then flush_ctx c s' else more s')
        ≡ decode_whole c s (clean c ig file)
  unfolding decode_whole
  last_round size ig s file f more v (same, done, rest) eof =
      let all : f.inbuf ≡ clean c ig file =
        sym (append-nil f.inbuf)
        ∙ ap (λ (t : Bytes). f.inbuf ++ t) (sym (ap (clean c ig) (done eof) ∙ clean_nil ig))
        ∙ same in
      rw eof (
        chain_cong s f.inbuf _ _ (λ s' e. flush_ctx-finish s' (valid_after s s' f.inbuf v e))
        ∙ ap (λ (t : Bytes). chain (c.base_decode_ctx s t) (finish c)) all)

  -- A round with a full buffer, by what the later rounds do.
  full_round :
      (size : ℕ) (ig : Bool) (s : c.State) (file : Bytes) (f : Filled) (more : c.State → Run)
      → 0 < size
      → Valid s
      → IsFilled c ig size [] file f
      → f.eof ≡ false
      → ((s' : c.State) → Valid s' → more s' ≡ decode_whole c s' (clean c ig f.left))
      → chain (c.base_decode_ctx s f.inbuf) (λ s'. if f.eof then flush_ctx c s' else more s')
        ≡ decode_whole c s (clean c ig file)
  full_round size ig s file f more hs v (same, done, rest) eof later = rw eof (
      chain_cong s f.inbuf _ _ (λ s' e. later s' (valid_after s s' f.inbuf v e))
      ∙ split f.inbuf (rest eof).0
      ∙ ap (decode_whole c s) same)
    where
      split :
          (buf : Bytes)
          → size ≤ length buf
          → chain (c.base_decode_ctx s buf) (λ s'. decode_whole c s' (clean c ig f.left))
            ≡ decode_whole c s (buf ++ clean c ig f.left)
      split [] h = absurd (omega arith)
      split (x ∷ buf) h = sym (decode_whole-append s x buf (clean c ig f.left))

  decode_rounds-decode_whole :
      (fuel size : ℕ) (ig : Bool) (s : c.State) (file : Bytes)
      → 0 < size
      → length file < fuel
      → Valid s
      → decode_rounds c fuel size ig s file ≡ decode_whole c s (clean c ig file)
  decode_rounds-decode_whole zero size ig s file hs h v = absurd (omega arith)
  decode_rounds-decode_whole (suc fuel) size ig s file hs h v =
      let (f, e, filled) = fill-IsFilled c ig (length file + 1) size [] file hs (omega arith) in
      decode_rounds_step fuel size ig s file f e ∙ elim (Bool-cases f.eof) [
        | inl eof ↦ last_round size ig s file f _ v filled eof
        | inr more ↦ full_round size ig s file f _ hs v filled more (λ s' v'.
            decode_rounds-decode_whole fuel size ig s' f.left hs (omega (arith, (filled.2 more).1))
              v')
      ]

-- do_decode, whatever the sizes of its buffers, is the decoder on all kept bytes at once.
pub do_decode-decode_whole :
    (c : Codec) (laws : IsLawful c) (ig : Bool) (file : Bytes)
    → 0 < c.base_length dec_blocksize
    → do_decode c ig file ≡ decode_whole c c.ctx_init (clean c ig file)
unfolding do_decode
do_decode-decode_whole c laws ig file h =
    decode_rounds-decode_whole c laws _ _ ig c.ctx_init file h (omega arith) laws.valid_init
