-- ===== src/Echo.antt =====
-- echo of annotated_Dataset-1/echo.c: the options and the escapes of main.
--
-- An argument is the list of its bytes; it has no NUL, which ends it in the source. A character that
-- is read behind the end is that NUL, which no test accepts. What the program does is what it writes,
-- or that it prints its usage or its version.
use lmcas.Base.{
  ℕ, zero, suc, ◌+◌, ◌-◌, ◌*◌, ◌%◌, Bool, true, false, not, ◌&&◌, ◌||◌, List, [], ◌∷◌, ◌++◌, Option,
  none, some, Bytes, codes, ltb, leb, ◌==◌, if◌then◌else◌, length, newline,
}
pub mod Laws
mod Examples

unfoldable pub is_xdigit : ℕ → Bool
is_xdigit c =
    (leb b'0' c && leb c b'9') || ((leb b'a' c && leb c b'f') || (leb b'A' c && leb c b'F'))

unfoldable pub hextobin : ℕ → ℕ
hextobin c =
    if c == b'a' || c == b'A'
    then 10
    else if c == b'b' || c == b'B'
    then 11
    else if c == b'c' || c == b'C'
    then 12
    else if c == b'd' || c == b'D'
    then 13
    else if c == b'e' || c == b'E'
    then 14
    else if c == b'f' || c == b'F'
    then 15
    else c - b'0'

abbrev pub is_octal : ℕ → Bool
is_octal c = leb b'0' c && leb c b'7'

-- What an escape writes, how many bytes behind the backslash it takes, and whether it ends all output.
pub record Escape : Type 0 where
  pub out : Bytes
  pub used : ℕ
  pub stop : Bool

-- The value of an octal escape so far, the bytes it has taken, and those behind.
pub record Octal : Type 0 where
  pub value : ℕ
  pub used : ℕ
  pub behind : Bytes

-- One more digit, if there is one; the value is an unsigned char.
unfoldable pub octal_digit : Octal → Octal
octal_digit octal = elim octal.behind [
  | [] ↦ octal
  | d ∷ s ↦
      if is_octal d
      then record {
        value = (octal.value * 8 + (d - b'0')) % 256;
        used = octal.used + 1;
        behind = s;
      }
      else octal
]

-- From the label of the digits 1 to 7 on.
unfoldable pub octal_escape : ℕ → ℕ → Bytes → Escape
unfolding octal_digit
octal_escape c used s =
    let octal = octal_digit (octal_digit (record { value = c - b'0'; used = used; behind = s })) in
    record { out = octal.value ∷ []; used = octal.used; stop = false }

abbrev pub writes : ℕ → ℕ → Escape
writes c used = record { out = c ∷ []; used = used; stop = false }

abbrev pub not_an_escape : ℕ → Escape
not_an_escape c = record { out = b'\\' ∷ c ∷ []; used = 1; stop = false }

unfoldable pub hex_escape : Bytes → Escape
unfolding is_xdigit hextobin
hex_escape [] = not_an_escape b'x'
hex_escape (ch ∷ []) = if is_xdigit ch then writes (hextobin ch) 2 else not_an_escape b'x'
hex_escape (ch ∷ ch' ∷ s) =
    if is_xdigit ch
    then (if is_xdigit ch'
        then writes ((hextobin ch * 16 + hextobin ch') % 256) 3
        else writes (hextobin ch) 2)
    else not_an_escape b'x'

unfoldable pub zero_escape : Bytes → Escape
unfolding octal_escape
zero_escape [] = writes 0 1
zero_escape (d ∷ s) = if is_octal d then octal_escape d 2 s else writes 0 1

-- The escape whose character behind the backslash is `c`.
unfoldable pub escape : ℕ → Bytes → Escape
unfolding hex_escape zero_escape octal_escape
escape c s =
    if c == b'a'
    then writes 7 1
    else if c == b'b'
    then writes 8 1
    else if c == b'c'
    then record { out = []; used = 1; stop = true }
    else if c == b'e'
    then writes 27 1
    else if c == b'f'
    then writes 12 1
    else if c == b'n'
    then writes 10 1
    else if c == b'r'
    then writes 13 1
    else if c == b't'
    then writes 9 1
    else if c == b'v'
    then writes 11 1
    else if c == b'x'
    then hex_escape s
    else if c == b'0'
    then zero_escape s
    else if is_octal c
    then octal_escape c 1 s
    else if c == b'\\'
    then writes b'\\' 1
    else not_an_escape c

-- `c == '\\' && *s`: the escape that begins with the byte, if one does.
unfoldable pub escape_at : ℕ → Bytes → Option Escape
unfolding escape
escape_at c [] = none
escape_at c (d ∷ s) = if c == b'\\' then some (escape d s) else none

-- What is written, and whether an escape has ended all output. The first argument counts the bytes
-- that an escape has taken already.
unfoldable pub print_escaped : ℕ → Bytes → Bytes × Bool
unfolding escape_at
print_escaped skip [] = ([], false)
print_escaped (suc skip) (c ∷ s) = print_escaped skip s
print_escaped zero (c ∷ s) = elim (escape_at c s) [
  | none ↦ let further = print_escaped zero s in (c ∷ further.0, further.1)
  | some e ↦
      let further = print_escaped e.used s in
      if e.stop then (e.out, true) else (e.out ++ further.0, further.1)
]

abbrev pub separator : List Bytes → Bytes
separator [] = []
separator (arg ∷ args) = b' ' ∷ []

unfoldable pub print_v9 : List Bytes → Bytes × Bool
unfolding print_escaped
print_v9 [] = ([], false)
print_v9 (arg ∷ args) =
    let line = print_escaped 0 arg in
    let further = print_v9 args in
    if line.1 then (line.0, true) else (line.0 ++ separator args ++ further.0, further.1)

unfoldable pub print_plain : List Bytes → Bytes
print_plain [] = []
print_plain (arg ∷ args) = arg ++ separator args ++ print_plain args

pub record Flags : Type 0 where
  pub do_v9 : Bool
  pub display_return : Bool

unfoldable pub are_options : Bytes → Bool
are_options [] = true
are_options (c ∷ temp) = (c == b'e' || (c == b'E' || c == b'n')) && are_options temp

unfoldable pub set_flags : Flags → Bytes → Flags
set_flags flags [] = flags
set_flags flags (c ∷ temp) =
    set_flags
      (if c == b'e'
        then record flags { do_v9 = true }
        else if c == b'E'
        then record flags { do_v9 = false }
        else record flags { display_return = false })
      temp

-- The letters of an argument that gives options.
unfoldable pub option_letters : Bytes → Option Bytes
unfolding are_options
option_letters [] = none
option_letters (c ∷ []) = none
option_letters (c ∷ d ∷ temp) =
    if c == b'-' && are_options (d ∷ temp) then some (d ∷ temp) else none

unfoldable pub take_options : Flags → List Bytes → Flags × List Bytes
unfolding option_letters set_flags
take_options flags [] = (flags, [])
take_options flags (arg ∷ args) = elim (option_letters arg) [
  | none ↦ (flags, arg ∷ args)
  | some temp ↦ take_options (set_flags flags temp) args
]

pub data Outcome : Type 0 where
  usage version : Outcome
  wrote : Bytes → Outcome

unfoldable pub streq : Bytes → Bytes → Bool
streq [] [] = true
streq [] (d ∷ t) = false
streq (c ∷ s) [] = false
streq (c ∷ s) (d ∷ t) = c == d && streq s t

-- `allow_options`, where DEFAULT_ECHO_TO_XPG is false.
unfoldable pub allows_options : Bool → List Bytes → Bool
unfolding streq
allows_options posixly_correct [] = not posixly_correct
allows_options posixly_correct (arg ∷ args) = not posixly_correct || streq arg (codes "-n")

-- What follows the label just_echo.
unfoldable pub just_echo : Bool → Flags → List Bytes → Outcome
unfolding print_v9 print_plain
just_echo posixly_correct flags args =
    let ending = if flags.display_return then newline ∷ [] else [] in
    if flags.do_v9 || posixly_correct
    then (if (print_v9 args).1
        then Outcome.wrote (print_v9 args).0
        else Outcome.wrote ((print_v9 args).0 ++ ending))
    else Outcome.wrote (print_plain args ++ ending)

-- The option that stands alone: --help or --version.
unfoldable pub lone_option : List Bytes → Option Outcome
unfolding streq
lone_option [] = none
lone_option (arg ∷ other ∷ args) = none
lone_option (arg ∷ []) =
    if streq arg (codes "--help")
    then some Outcome.usage
    else if streq arg (codes "--version")
    then some Outcome.version
    else none

abbrev pub no_flags : Flags
no_flags = record { do_v9 = false; display_return = true }

unfoldable pub main : Bool → List Bytes → Outcome
unfolding allows_options lone_option take_options just_echo
main posixly_correct args =
    if allows_options posixly_correct args
    then elim (lone_option args) [
      | some outcome ↦ outcome
      | none ↦ let taken = take_options no_flags args in just_echo posixly_correct taken.0 taken.1
    ]
    else just_echo posixly_correct no_flags args
