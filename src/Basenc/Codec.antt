-- ===== src/Basenc/Codec.antt =====
-- annotated_Dataset-1/basenc.c: what an encoding of `basenc` is. The program keeps the chosen
-- encoding in five function pointers (base_length, isbase, base_encode, base_decode_ctx_init,
-- base_decode_ctx) and the state of its decoder in one struct; here both are a record.
use mathlib.Core.Path.{subst}
use mathlib.Core.Option.{some-injective}
use lmcas.Base.{
  ◌≢◌, ℕ, ◌≡◌, refl, Bool, Option, none, some, [], ◌∷◌, ◌++◌, append_assoc, Bytes, inl, inr,
  Option-cases, Bool-cases, ap, sym, ◌∙◌, keep, newline, not, ◌==◌, ==_iff,
}

abbrev pub is_text : ℕ → Bool
is_text c = not (c == newline)

-- What one call of a decoder gives: the bytes it stored, and the new state, or `none` when it
-- returned false (the caller then gives up, so the state that such a call leaves is not kept).
pub record Decoded (S : Type 0) : Type 0 where
  pub out : Bytes
  pub ctx : Option S

pub record Codec : Type 1 where
  pub State : Type 0
  pub ctx_init : State
  -- ctx->i
  pub pending : State → ℕ
  pub base_length : ℕ → ℕ
  pub isbase : ℕ → Bool
  -- `none` when the program dies
  pub base_encode : Bytes → Option Bytes
  pub base_decode_ctx : State → Bytes → Decoded State

module _ {S : Type 0} where
  -- Bytes stored before a call.
  abbrev pub after : Bytes → Decoded S → Decoded S
  after o r = record { out = o ++ r.out; ctx = r.ctx }

  abbrev pub then_decode : Decoded S → (S → Decoded S) → Decoded S
  then_decode r k = elim r.ctx [ none ↦ r | some s ↦ after r.out (k s) ]

  -- The loop `while (inlen--)` of a decoder over its body: `none` is the early `return false`.
  unfoldable pub decode_loop : (S → ℕ → Option (S × Bytes)) → S → Bytes → Decoded S
  decode_loop step s [] = record { out = []; ctx = some s }
  decode_loop step s (c ∷ rest) = elim (step s c) [
    | none ↦ record { out = []; ctx = none }
    | some (s', o) ↦ after o (decode_loop step s' rest)
  ]

  after-then_decode :
      (o o' : Bytes) (c : Option S) (k : S → Decoded S)
      → after o (then_decode (record { out = o'; ctx = c }) k)
        ≡ then_decode (record { out = o ++ o'; ctx = c }) k
  after-then_decode o o' none k = refl
  after-then_decode o o' (some s) k = rw append_assoc

  -- One round of the loop, by what its body does.
  pub decode_loop_stop :
      (step : S → ℕ → Option (S × Bytes)) (s : S) (c : ℕ) (rest : Bytes)
      → step s c ≡ none
      → decode_loop step s (c ∷ rest) ≡ record { out = []; ctx = none }
  unfolding decode_loop
  decode_loop_stop step s c rest e = rw (e, decode_loop)

  pub decode_loop_step :
      (step : S → ℕ → Option (S × Bytes)) (s : S) (c : ℕ) (rest : Bytes) {s' : S} {o : Bytes}
      → step s c ≡ some (s', o)
      → decode_loop step s (c ∷ rest) ≡ after o (decode_loop step s' rest)
  unfolding decode_loop
  decode_loop_step step s c rest e = rw (e, decode_loop)

  -- The loop over a split input is the loop over the parts.
  pub decode_loop-append :
      (step : S → ℕ → Option (S × Bytes)) (s : S) (xs ys : Bytes)
      → decode_loop step s (xs ++ ys)
        ≡ then_decode (decode_loop step s xs) (λ s'. decode_loop step s' ys)
  decode_loop-append step s [] ys = unfold decode_loop in refl
  decode_loop-append step s (c ∷ xs) ys = elim (Option-cases (step s c)) [
    | inl e ↦ rw (decode_loop_stop step s c xs e, decode_loop_stop step s c (xs ++ ys) e)
    | inr ((s', o), e) ↦
        rw
          (
            decode_loop_step step s c xs e,
            decode_loop_step step s c (xs ++ ys) e,
            decode_loop-append step s' xs ys,
          )
          (after-then_decode o _ _ _)
  ]

  -- What each round keeps, the loop keeps.
  pub decode_loop-keeps :
      (P : S → Type 0) (step : S → ℕ → Option (S × Bytes))
      → ((s s' : S) (c : ℕ) (o : Bytes) → P s → step s c ≡ some (s', o) → P s')
      → (s s' : S) (xs : Bytes) → P s
      → (decode_loop step s xs).ctx ≡ some s'
      → P s'
  decode_loop-keeps P step keep s s' [] p e =
      subst P (some-injective s s' (unfold decode_loop in e)) p
  decode_loop-keeps P step keep s s' (c ∷ xs) p e = elim (Option-cases (step s c)) [
    | inl h ↦ cc (ap (λ (r : Decoded S). r.ctx) (decode_loop_stop step s c xs h))
    | inr ((t, o), h) ↦
        decode_loop-keeps P step keep t s' xs (keep s t c o p h)
          (sym (ap (λ (r : Decoded S). r.ctx) (decode_loop_step step s c xs h)) ∙ e)
  ]

  -- Where the body skips line breaks, they may as well be taken out first.
  pub decode_loop-is_text :
      (step : S → ℕ → Option (S × Bytes))
      → ((s : S) → step s newline ≡ some (s, []))
      → (s : S) (xs : Bytes) → decode_loop step s xs ≡ decode_loop step s (keep is_text xs)
  decode_loop-is_text step skip s [] = refl
  decode_loop-is_text step skip s (c ∷ xs) = elim (Bool-cases (c == newline)) [
    | inl e ↦
        let c_is : c ≡ newline = (==_iff c newline).0 e in
        let skipped : step s c ≡ some (s, []) = rw c_is (skip s) in
        rw e (decode_loop_step step s c xs skipped ∙ decode_loop-is_text step skip s xs)
    | inr e ↦ rw e (elim (Option-cases (step s c)) [
      | inl h ↦ decode_loop_stop step s c xs h ∙ sym (decode_loop_stop step s c (keep is_text xs) h)
      | inr ((t, o), h) ↦
          decode_loop_step step s c xs h
          ∙ ap (after o) (decode_loop-is_text step skip t xs)
          ∙ sym (decode_loop_step step s c (keep is_text xs) h)
    ])
  ]

-- A decoder that runs the loop on what is not empty, and then does `g`.
module _ {S : Type 0} (decode : S → Bytes → Decoded S) (g : Decoded S → Decoded S)
    (step : S → ℕ → Option (S × Bytes))
    (runs : (s : S) (x : ℕ) (xs : Bytes)
      → decode s (x ∷ xs) ≡ g (decode_loop step s (x ∷ xs))) where
  pub decode-ne-nil : (s : S) (xs : Bytes) → xs ≢ [] → decode s xs ≡ g (decode_loop step s xs)
  decode-ne-nil s [] h = absurd (h refl)
  decode-ne-nil s (x ∷ xs) h = runs s x xs

  pub decode-is_text :
      ((s : S) → step s newline ≡ some (s, []))
      → (s : S) (xs : Bytes) → keep is_text xs ≢ []
      → decode s xs ≡ decode s (keep is_text xs)
  decode-is_text skip s [] h = absurd (h refl)
  decode-is_text skip s (x ∷ xs) h =
      runs s x xs
      ∙ ap g (decode_loop-is_text step skip s (x ∷ xs))
      ∙ sym (decode-ne-nil s (keep is_text (x ∷ xs)) h)
