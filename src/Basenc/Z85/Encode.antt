-- ===== src/Basenc/Z85/Encode.antt =====
-- The Z85 encoder: the groups one after another, and what the decoder reads from them.
use mathlib.Core.Path.{subst}
use mathlib.Core.Option.{some-injective}
use lmcas.Base.{
  ℕ, ◌+◌, ◌-◌, ◌*◌, ◌/◌, ◌%◌, ◌≤◌, ◌≡◌, ◌≢◌, refl, ap, ◌∙◌, Option, none, some, [], ◌∷◌, ◌++◌,
  Bytes, IsByte, newline, arith, length, length-append, take, take_all, append_assoc, All,
  All-append,
}
use lmcas.Basenc.Codec.{decode_loop, after}
use lmcas.Basenc.Laws.{join_encoded}
use lmcas.Basenc.Z85.{
  Z85Context, z85_digits, quad_value, z85_length, z85_loop, z85_encode, z85_step,
}
use lmcas.Basenc.Z85.Group.{between, quad_read, z85_digits_lem, z85_value-char}

-- The encoder with no bound on its buffer.
unfoldable pub z85_text : Bytes → Option Bytes
z85_text [] = some []
z85_text (q0 ∷ q1 ∷ q2 ∷ q3 ∷ rest) =
    join_encoded (some (z85_digits 5 (quad_value q0 q1 q2 q3) [])) (z85_text rest)
z85_text (q0 ∷ rest) = none

length-z85_digits : (v : ℕ) → length (z85_digits 5 v []) ≡ 5
unfolding z85_digits
length-z85_digits v = refl

joined :
    (d : Bytes) (o : Option Bytes)
    → elim o [ none ↦ none | some text ↦ some (d ++ text) ] ≡ join_encoded (some d) o
joined d none = refl
joined d (some text) = refl

z85_loop_quad :
    (outlen outidx q0 q1 q2 q3 : ℕ) (rest : Bytes)
    → z85_loop outlen outidx (q0 ∷ q1 ∷ q2 ∷ q3 ∷ rest)
      ≡ join_encoded
          (some (take (outlen - outidx) (z85_digits 5 (quad_value q0 q1 q2 q3) [])))
          (z85_loop outlen (outidx + 5) rest)
unfolding z85_loop
z85_loop_quad outlen outidx q0 q1 q2 q3 rest =
    joined (take (outlen - outidx) (z85_digits 5 (quad_value q0 q1 q2 q3) []))
      (z85_loop outlen (outidx + 5) rest)

-- With room for five characters a group nothing is cut off.
z85_loop-z85_text :
    (outlen outidx : ℕ) (xs : Bytes)
    → outidx + length xs * 5 / 4 ≤ outlen
    → z85_loop outlen outidx xs ≡ z85_text xs
unfolding z85_text
z85_loop-z85_text outlen outidx [] h = unfold z85_loop in refl
z85_loop-z85_text outlen outidx (q0 ∷ []) h = unfold z85_loop in refl
z85_loop-z85_text outlen outidx (q0 ∷ q1 ∷ []) h = unfold z85_loop in refl
z85_loop-z85_text outlen outidx (q0 ∷ q1 ∷ q2 ∷ []) h = unfold z85_loop in refl
z85_loop-z85_text outlen outidx (q0 ∷ q1 ∷ q2 ∷ q3 ∷ rest) h =
    let digits = z85_digits 5 (quad_value q0 q1 q2 q3) [] in
    let whole : take (outlen - outidx) digits ≡ digits =
      take_all (outlen - outidx) digits
        (omega (arith, length-z85_digits (quad_value q0 q1 q2 q3))) in
    z85_loop_quad outlen outidx q0 q1 q2 q3 rest
    ∙ ap (λ (t : Bytes). join_encoded (some t) (z85_loop outlen (outidx + 5) rest)) whole
    ∙ ap (join_encoded (some digits)) (z85_loop-z85_text outlen (outidx + 5) rest (omega arith))

pub z85_encode-z85_text : (xs : Bytes) → z85_encode xs ≡ z85_text xs
unfolding z85_encode
z85_encode-z85_text xs = z85_loop-z85_text (z85_length (length xs)) 0 xs (omega arith)

join_assoc :
    (d : Bytes) (o o' : Option Bytes)
    → join_encoded (some d) (join_encoded o o') ≡ join_encoded (join_encoded (some d) o) o'
join_assoc d none o' = refl
join_assoc d (some e) none = refl
join_assoc d (some e) (some e') = rw append_assoc

join_nil : (o : Option Bytes) → o ≡ join_encoded (some []) o
join_nil none = refl
join_nil (some e) = refl

pub z85_text-append :
    (xs ys : Bytes)
    → length xs % 4 ≡ 0
    → z85_text (xs ++ ys) ≡ join_encoded (z85_text xs) (z85_text ys)
unfolding z85_text
z85_text-append [] ys h = join_nil (z85_text ys)
z85_text-append (q0 ∷ []) ys h = absurd (omega arith)
z85_text-append (q0 ∷ q1 ∷ []) ys h = absurd (omega arith)
z85_text-append (q0 ∷ q1 ∷ q2 ∷ []) ys h = absurd (omega arith)
z85_text-append (q0 ∷ q1 ∷ q2 ∷ q3 ∷ xs) ys h =
    let d = z85_digits 5 (quad_value q0 q1 q2 q3) [] in
    ap (join_encoded (some d)) (z85_text-append xs ys (omega arith))
    ∙ join_assoc d (z85_text xs) (z85_text ys)

-- The text of a group and of what follows it.
join_some :
    (d : Bytes) (o : Option Bytes) (e : Bytes)
    → join_encoded (some d) o ≡ some e
    → (e' : Bytes) × (o ≡ some e') × (e ≡ d ++ e')
join_some d none e h = cc
join_some d (some e') e h = (e', refl, ground arith)

-- The encoder succeeds on whole groups, and writes five characters for four bytes.
pub length-z85_text : (xs e : Bytes) → z85_text xs ≡ some e → length e * 4 ≡ length xs * 5
unfolding z85_text
length-z85_text [] e h = ground arith
length-z85_text (q0 ∷ []) e h = cc
length-z85_text (q0 ∷ q1 ∷ []) e h = cc
length-z85_text (q0 ∷ q1 ∷ q2 ∷ []) e h = cc
length-z85_text (q0 ∷ q1 ∷ q2 ∷ q3 ∷ xs) e h =
    let d = z85_digits 5 (quad_value q0 q1 q2 q3) [] in
    let (e', p, q) = join_some d (z85_text xs) e h in
    omega (
      arith,
      length-z85_text xs e' p,
      ap length q ∙ length-append d e',
      length-z85_digits (quad_value q0 q1 q2 q3),
    )

z85_digits_text : (v : ℕ) → All (λ ch. ch ≢ newline) (z85_digits 5 v [])
z85_digits_text v = rw (z85_digits_lem v) (
  (z85_value-char _ (omega arith)).1,
  (
    (z85_value-char _ (omega arith)).1,
    (
      (z85_value-char _ (omega arith)).1,
      ((z85_value-char _ (omega arith)).1, ((z85_value-char _ (omega arith)).1, tt)),
    ),
  ),
)

pub z85_text_lines : (xs e : Bytes) → z85_text xs ≡ some e → All (λ ch. ch ≢ newline) e
unfolding z85_text
z85_text_lines [] e h = subst (All (λ ch. ch ≢ newline)) (some-injective [] e h) tt
z85_text_lines (q0 ∷ []) e h = cc
z85_text_lines (q0 ∷ q1 ∷ []) e h = cc
z85_text_lines (q0 ∷ q1 ∷ q2 ∷ []) e h = cc
z85_text_lines (q0 ∷ q1 ∷ q2 ∷ q3 ∷ xs) e h =
    let d = z85_digits 5 (quad_value q0 q1 q2 q3) [] in
    let (e', p, q) = join_some d (z85_text xs) e h in
    rw q (All-append _ d e' (z85_digits_text (quad_value q0 q1 q2 q3)) (z85_text_lines xs e' p))

-- The decoder reads the bytes back, and holds no character then.
pub z85_read_back :
    (o0 o1 o2 o3 o4 i : ℕ) (xs e : Bytes)
    → All IsByte xs
    → z85_text xs ≡ some e
    → (s : Z85Context) × (decode_loop z85_step (between o0 o1 o2 o3 o4 i) e
        ≡ record { out = xs; ctx = some s })
      × (s.z85_i ≡ 0)
unfolding z85_text
z85_read_back o0 o1 o2 o3 o4 i [] e b h =
    (between o0 o1 o2 o3 o4 i, rw (← some-injective [] e h) (unfold decode_loop in refl), refl)
z85_read_back o0 o1 o2 o3 o4 i (q0 ∷ []) e b h = cc
z85_read_back o0 o1 o2 o3 o4 i (q0 ∷ q1 ∷ []) e b h = cc
z85_read_back o0 o1 o2 o3 o4 i (q0 ∷ q1 ∷ q2 ∷ []) e b h = cc
z85_read_back o0 o1 o2 o3 o4 i (q0 ∷ q1 ∷ q2 ∷ q3 ∷ xs) e (b0, (b1, (b2, (b3, bs)))) h =
    let v = quad_value q0 q1 q2 q3 in
    let (e', p, q) = join_some (z85_digits 5 v []) (z85_text xs) e h in
    let (s, same, done) =
      z85_read_back (v / 85 / 85 / 85 / 85 % 85) (v / 85 / 85 / 85 % 85) (v / 85 / 85 % 85)
        (v / 85 % 85) (v % 85) i xs e' bs p in
    (
      s,
      ap (decode_loop z85_step (between o0 o1 o2 o3 o4 i)) q
          ∙ quad_read o0 o1 o2 o3 o4 i q0 q1 q2 q3 e' b0 b1 b2 b3
          ∙ ap (after (q0 ∷ q1 ∷ q2 ∷ q3 ∷ [])) same,
      done,
    )
