-- ===== src/Basenc/Z85/Group.antt =====
-- One group of Z85: four bytes and five characters.
use lmcas.Base.{
  ℕ, ◌+◌, ◌*◌, ◌/◌, ◌%◌, ◌^◌, ◌<◌, ◌≡◌, ◌≢◌, refl, ap, ◌∙◌, Bool, true, false, Option, none, some,
  [], ◌∷◌, ◌++◌, Bytes, newline, arith, ltb, ◌==◌, if◌then◌else◌, get_or, checked_below,
  checked_below_lem, not, ◌&&◌,
}
use lmcas.Basenc.Codec.{decode_loop, decode_loop_step, after}
use lmcas.Basenc.Z85.{
  Z85Context, z85_encoding, z85_digits, quad_value, z85_value, z85_group, push_octet, z85_step,
}

unfoldable pub char : ℕ → ℕ
char n = get_or z85_encoding n 0

abbrev is_char_of : ℕ → Option ℕ → ℕ → Bool
is_char_of c value n = elim value [ none ↦ false | some m ↦ m == n && not (c == newline) ]

is_char_of_lem :
    (c : ℕ) (value : Option ℕ) (n : ℕ)
    → is_char_of c value n ≡ true
    → (value ≡ some n) × (c ≢ newline)
is_char_of_lem c value n h = ground arith

char_table : checked_below 85 (λ n. is_char_of (char n) (z85_value (char n)) n) ≡ true
unfolding checked_below z85_value char
char_table = refl

pub z85_value-char : (n : ℕ) → n < 85 → (z85_value (char n) ≡ some n) × (char n ≢ newline)
z85_value-char n h =
    is_char_of_lem (char n) (z85_value (char n)) n (checked_below_lem 85 _ n char_table h)

abbrev pub number : ℕ → ℕ → ℕ → ℕ → ℕ → ℕ
number d0 d1 d2 d3 d4 = d0 * 52200625 + d1 * 614125 + d2 * 7225 + d3 * 85 + d4

-- A group of five digits is taken exactly when its value fits 32 bits, and then gives the four
-- bytes of that value: the tests on the top digit reject neither more nor less.
pub z85_group_exact :
    (d0 d1 d2 d3 d4 : ℕ)
    → d0 < 85
    → d1 < 85
    → d2 < 85
    → d3 < 85
    → d4 < 85
    → z85_group (d0 ∷ d1 ∷ d2 ∷ d3 ∷ d4 ∷ []) ≡ (
        let v = number d0 d1 d2 d3 d4 in
        if ltb v (2 ^ 32)
        then some (v / 2 ^ 24 ∷ v / 2 ^ 16 % 256 ∷ v / 2 ^ 8 % 256 ∷ v % 256 ∷ [])
        else none)
unfolding z85_group
z85_group_exact d0 d1 d2 d3 d4 h0 h1 h2 h3 h4 = ground arith

z85_step-char : (s : Z85Context) (n : ℕ) → n < 85 → z85_step s (char n) ≡ push_octet s n
unfolding z85_step
z85_step-char s n h =
    let (value, text) = z85_value-char n h in
    let plain : (char n == newline) ≡ false = ground arith in rw (plain, value)

-- The decoder between two groups.
abbrev pub between : ℕ → ℕ → ℕ → ℕ → ℕ → ℕ → Z85Context
between o0 o1 o2 o3 o4 i = record { octets = o0 ∷ o1 ∷ o2 ∷ o3 ∷ o4 ∷ []; z85_i = 0; i = i }

-- The characters of a value.
pub z85_digits_lem :
    (v : ℕ)
    → z85_digits 5 v []
      ≡ char (v / 85 / 85 / 85 / 85 % 85)
        ∷ char (v / 85 / 85 / 85 % 85)
        ∷ char (v / 85 / 85 % 85)
        ∷ char (v / 85 % 85)
        ∷ char (v % 85)
        ∷ []
unfolding z85_digits char
z85_digits_lem v = refl

number-digits :
    (v : ℕ)
    → v < 2 ^ 32
    → number
        (v / 85 / 85 / 85 / 85 % 85)
        (v / 85 / 85 / 85 % 85)
        (v / 85 / 85 % 85)
        (v / 85 % 85)
        (v % 85)
      ≡ v
number-digits v h = omega arith

group_of_value :
    (v : ℕ)
    → v < 2 ^ 32
    → z85_group (
        v / 85 / 85 / 85 / 85 % 85
        ∷ v / 85 / 85 / 85 % 85
        ∷ v / 85 / 85 % 85
        ∷ v / 85 % 85
        ∷ v % 85
        ∷ [])
      ≡ some (v / 2 ^ 24 ∷ v / 2 ^ 16 % 256 ∷ v / 2 ^ 8 % 256 ∷ v % 256 ∷ [])
group_of_value v h =
    z85_group_exact _ _ _ _ _ (omega arith) (omega arith) (omega arith) (omega arith) (omega arith)
    ∙ rw (number-digits v h) (ground arith)

push_five :
    (o0 o1 o2 o3 o4 i d0 d1 d2 d3 d4 : ℕ) (rest bytes : Bytes)
    → d0 < 85
    → d1 < 85
    → d2 < 85
    → d3 < 85
    → d4 < 85
    → z85_group (d0 ∷ d1 ∷ d2 ∷ d3 ∷ d4 ∷ []) ≡ some bytes
    → decode_loop z85_step
        (between o0 o1 o2 o3 o4 i)
        (char d0 ∷ char d1 ∷ char d2 ∷ char d3 ∷ char d4 ∷ rest)
      ≡ after bytes (decode_loop z85_step (between d0 d1 d2 d3 d4 i) rest)
unfolding push_octet
push_five o0 o1 o2 o3 o4 i d0 d1 d2 d3 d4 rest bytes h0 h1 h2 h3 h4 g =
    decode_loop_step z85_step _ _ _ (z85_step-char _ d0 h0)
    ∙ decode_loop_step z85_step _ _ _ (z85_step-char _ d1 h1)
    ∙ decode_loop_step z85_step _ _ _ (z85_step-char _ d2 h2)
    ∙ decode_loop_step z85_step _ _ _ (z85_step-char _ d3 h3)
    ∙ decode_loop_step z85_step _ _ _ (z85_step-char _ d4 h4 ∙ rw g)

quad_bytes :
    (q0 q1 q2 q3 : ℕ)
    → q0 < 256
    → q1 < 256
    → q2 < 256
    → q3 < 256
    → (let v = quad_value q0 q1 q2 q3 in
        (v < 2 ^ 32)
        × (v / 2 ^ 24 ≡ q0)
        × (v / 2 ^ 16 % 256 ≡ q1)
        × (v / 2 ^ 8 % 256 ≡ q2)
        × (v % 256 ≡ q3))
unfolding quad_value
quad_bytes q0 q1 q2 q3 h0 h1 h2 h3 = omega arith

-- The decoder reads the four bytes back from the characters of their value.
pub quad_read :
    (o0 o1 o2 o3 o4 i q0 q1 q2 q3 : ℕ) (rest : Bytes)
    → q0 < 256
    → q1 < 256
    → q2 < 256
    → q3 < 256
    → (let v = quad_value q0 q1 q2 q3 in
        decode_loop z85_step (between o0 o1 o2 o3 o4 i) (z85_digits 5 v [] ++ rest)
        ≡ after (q0 ∷ q1 ∷ q2 ∷ q3 ∷ []) (
            decode_loop z85_step
              (between
                (v / 85 / 85 / 85 / 85 % 85)
                (v / 85 / 85 / 85 % 85)
                (v / 85 / 85 % 85)
                (v / 85 % 85)
                (v % 85)
                i)
              rest))
quad_read o0 o1 o2 o3 o4 i q0 q1 q2 q3 rest h0 h1 h2 h3 =
    let v = quad_value q0 q1 q2 q3 in
    let (fits, e0, e1, e2, e3) = quad_bytes q0 q1 q2 q3 h0 h1 h2 h3 in
    let bytes : z85_group _ ≡ some (q0 ∷ q1 ∷ q2 ∷ q3 ∷ []) =
      group_of_value v fits ∙ rw (e0, e1, e2, e3) in
    ap (λ (t : Bytes). decode_loop z85_step (between o0 o1 o2 o3 o4 i) (t ++ rest))
      (z85_digits_lem v)
    ∙ push_five o0 o1 o2 o3 o4 i _ _ _ _ _ rest _ (omega arith) (omega arith) (omega arith)
        (omega arith) (omega arith) bytes
