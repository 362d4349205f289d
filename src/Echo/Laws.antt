-- ===== src/Echo/Laws.antt =====
-- What echo writes: arguments with no backslash as they are, and any bytes as escapes.
use lmcas.Base.{
  ℕ, ◌+◌, ◌*◌, ◌/◌, ◌%◌, ◌<◌, Bool, true, false, ◌&&◌, List, [], ◌∷◌, ◌++◌, none, some, Bytes,
  IsByte, codes, ◌==◌, newline, All, get_or, checked_below, checked_below_lem, ◌≡◌, refl, ap, ◌∙◌,
  arith, Bool-cases, inl, inr, append_assoc, append-nil,
}
use lmcas.Echo.{
  Escape, Flags, Outcome, is_xdigit, hextobin, escape, escape_at, hex_escape, writes, print_escaped,
  separator, print_v9, print_plain, option_letters, take_options, allows_options, lone_option,
  just_echo, no_flags, set_flags, main, streq, are_options,
}

-- A byte that stands for itself.
abbrev pub IsPlain : ℕ → Type 0
IsPlain c = (c == b'\\') ≡ false

escape_at-plain : (c : ℕ) (s : Bytes) → IsPlain c → escape_at c s ≡ none
unfolding escape_at
escape_at-plain c [] h = refl
escape_at-plain c (d ∷ s) h = rw h refl

plain_char :
    (c : ℕ) (s : Bytes)
    → escape_at c s ≡ none
    → print_escaped 0 (c ∷ s) ≡ (c ∷ (print_escaped 0 s).0, (print_escaped 0 s).1)
unfolding print_escaped
plain_char c s e = rw (print_escaped, e) refl

print_escaped-plain : (s : Bytes) → All IsPlain s → print_escaped 0 s ≡ (s, false)
print_escaped-plain [] h = unfold print_escaped in refl
print_escaped-plain (c ∷ s) (h, hs) =
    plain_char c s (escape_at-plain c s h) ∙ rw (print_escaped-plain s hs) refl

plain_line :
    (arg : Bytes) (args : List Bytes) (out : Bytes)
    → print_escaped 0 arg ≡ (arg, false)
    → print_v9 args ≡ (out, false)
    → print_v9 (arg ∷ args) ≡ (arg ++ separator args ++ out, false)
unfolding print_v9
plain_line arg args out e f = rw (print_v9, e, f) refl

-- Without backslashes both loops print the same.
pub print_v9-print_plain :
    (args : List Bytes) → All (All IsPlain) args → print_v9 args ≡ (print_plain args, false)
unfolding print_plain
print_v9-print_plain [] h = unfold print_v9 in refl
print_v9-print_plain (arg ∷ args) (h, hs) =
    plain_line arg args (print_plain args) (print_escaped-plain arg h)
      (print_v9-print_plain args hs)

-- The digits of escapes.
abbrev pub hex_digit : ℕ → ℕ
hex_digit n = get_or (codes "0123456789abcdef") n 0

digit_table : checked_below 16 (λ n. is_xdigit (hex_digit n) && hextobin (hex_digit n) == n) ≡ true
unfolding checked_below is_xdigit hextobin
digit_table = refl

hex_digit_lem : (n : ℕ) → n < 16 → (is_xdigit (hex_digit n) ≡ true) × (hextobin (hex_digit n) ≡ n)
hex_digit_lem n h = ground (arith, checked_below_lem 16 _ n digit_table h)

-- Every byte as an escape with two digits.
abbrev pub escaped : Bytes → Bytes
escaped [] = []
escaped (b ∷ text) = b'\\' ∷ b'x' ∷ hex_digit (b / 16) ∷ hex_digit (b % 16) ∷ escaped text

hex_escape-digits :
    (b : ℕ) (s : Bytes)
    → IsByte b
    → hex_escape (hex_digit (b / 16) ∷ hex_digit (b % 16) ∷ s) ≡ writes b 3
unfolding hex_escape
hex_escape-digits b s h =
    let (high, high_value) = hex_digit_lem (b / 16) (omega (arith, h)) in
    let (low, low_value) = hex_digit_lem (b % 16) (omega arith) in
    let value : (b / 16 * 16 + b % 16) % 256 ≡ b = omega (arith, h) in
    rw (high, low, high_value, low_value, value) refl

escape_at-x : (s : Bytes) → escape_at b'\\' (b'x' ∷ s) ≡ some (hex_escape s)
unfolding escape_at escape
escape_at-x s = refl

escaped_char :
    (c b d d' d'' : ℕ) (s : Bytes)
    → escape_at c (d ∷ d' ∷ d'' ∷ s) ≡ some (writes b 3)
    → print_escaped 0 (c ∷ d ∷ d' ∷ d'' ∷ s) ≡ (b ∷ (print_escaped 0 s).0, (print_escaped 0 s).1)
unfolding print_escaped
escaped_char c b d d' d'' s e = rw (print_escaped, e) refl

print_escaped-escaped :
    (text : Bytes) → All IsByte text → print_escaped 0 (escaped text) ≡ (text, false)
print_escaped-escaped [] h = unfold print_escaped in refl
print_escaped-escaped (b ∷ text) (h, hs) =
    escaped_char b'\\' b b'x' (hex_digit (b / 16)) (hex_digit (b % 16)) (escaped text) (
      escape_at-x (hex_digit (b / 16) ∷ hex_digit (b % 16) ∷ escaped text)
      ∙ ap (λ (e : Escape). some e) (hex_escape-digits b (escaped text) h))
    ∙ rw (print_escaped-escaped text hs) refl

-- Behind options that ask for escapes and no newline.
abbrev escapes_only : Flags
escapes_only = record { do_v9 = true; display_return = false }

print_one :
    (arg out : Bytes)
    → print_escaped 0 arg ≡ (out, false)
    → print_v9 (arg ∷ []) ≡ (out ++ [] ++ [], false)
unfolding print_v9
print_one arg out e = rw (print_v9, e) refl

just_one :
    (posixly_correct : Bool) (args : List Bytes) (out : Bytes)
    → print_v9 args ≡ (out, false)
    → just_echo posixly_correct escapes_only args ≡ Outcome.wrote (out ++ [])
unfolding just_echo
just_one posixly_correct args out e = rw (just_echo, e) refl

after_options :
    (text : Bytes)
    → main false (codes "-ne" ∷ escaped text ∷ [])
      ≡ just_echo false escapes_only (escaped text ∷ [])
unfolding main allows_options lone_option take_options option_letters are_options set_flags
after_options [] = refl
after_options (b ∷ text) = refl

-- With POSIXLY_CORRECT unset, echo -ne of any bytes, each written as an escape with two hexadecimal
-- digits, writes the bytes.
pub main-escaped :
    (text : Bytes)
    → All IsByte text
    → main false (codes "-ne" ∷ escaped text ∷ []) ≡ Outcome.wrote text
main-escaped text h =
    after_options text
    ∙ just_one false (escaped text ∷ []) (text ++ [] ++ [])
        (print_one (escaped text) text (print_escaped-escaped text h))
    ∙ ap Outcome.wrote (append-nil (text ++ [] ++ []) ∙ append-nil (text ++ []) ∙ append-nil text)

-- The argument does not begin with a dash.
abbrev pub IsNoOption : Bytes → Type 0
IsNoOption [] = Unit
IsNoOption (c ∷ s) = (c == b'-') ≡ false

lone_option-none :
    (arg : Bytes) (args : List Bytes) → IsNoOption arg → lone_option (arg ∷ args) ≡ none
unfolding lone_option streq
lone_option-none arg (other ∷ args) h = refl
lone_option-none [] [] h = refl
lone_option-none (c ∷ s) [] h = rw h refl

option_letters-none : (arg : Bytes) → IsNoOption arg → option_letters arg ≡ none
unfolding option_letters
option_letters-none [] h = refl
option_letters-none (c ∷ []) h = refl
option_letters-none (c ∷ d ∷ s) h = rw h refl

no_options_taken :
    (arg : Bytes) (args : List Bytes)
    → option_letters arg ≡ none
    → take_options no_flags (arg ∷ args) ≡ (no_flags, arg ∷ args)
unfolding take_options
no_options_taken arg args e = rw (take_options, e) refl

just_plain :
    (posixly_correct : Bool) (args : List Bytes)
    → print_v9 args ≡ (print_plain args, false)
    → just_echo posixly_correct no_flags args ≡ Outcome.wrote (print_plain args ++ newline ∷ [])
unfolding just_echo
just_plain true args e = rw (just_echo, e) refl
just_plain false args e = refl

main-just_echo :
    (posixly_correct : Bool) (args : List Bytes)
    → lone_option args ≡ none
    → take_options no_flags args ≡ (no_flags, args)
    → main posixly_correct args ≡ just_echo posixly_correct no_flags args
unfolding main
main-just_echo posixly_correct args e f = elim (Bool-cases (allows_options posixly_correct args)) [
  | inl a ↦ rw (main, a, e, f) refl
  | inr a ↦ rw (main, a) refl
]

-- Arguments with one space between each two.
abbrev pub joined : List Bytes → Bytes
joined [] = []
joined (arg ∷ []) = arg
joined (arg ∷ other ∷ args) = arg ++ (b' ' ∷ joined (other ∷ args))

print_plain-joined : (args : List Bytes) → print_plain args ≡ joined args
unfolding print_plain
print_plain-joined [] = refl
print_plain-joined (arg ∷ []) = append-nil (arg ++ []) ∙ append-nil arg
print_plain-joined (arg ∷ other ∷ args) =
    append_assoc arg (b' ' ∷ []) (print_plain (other ∷ args))
    ∙ ap (λ (l : Bytes). arg ++ (b' ' ∷ l)) (print_plain-joined (other ∷ args))

-- Arguments without backslashes, the first of which does not begin with a dash, are written with
-- one space between each two and a newline behind them, whether or not POSIXLY_CORRECT is set.
pub main-joined :
    (posixly_correct : Bool) (arg : Bytes) (args : List Bytes)
    → IsNoOption arg
    → All (All IsPlain) (arg ∷ args)
    → main posixly_correct (arg ∷ args) ≡ Outcome.wrote (joined (arg ∷ args) ++ newline ∷ [])
main-joined posixly_correct arg args start plain =
    main-just_echo posixly_correct (arg ∷ args) (lone_option-none arg args start)
      (no_options_taken arg args (option_letters-none arg start))
    ∙ just_plain posixly_correct (arg ∷ args) (print_v9-print_plain (arg ∷ args) plain)
    ∙ ap (λ (l : Bytes). Outcome.wrote (l ++ newline ∷ [])) (print_plain-joined (arg ∷ args))
