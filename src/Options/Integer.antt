-- ===== src/Options/Integer.antt =====
-- `Options::getInteger`, with the C library's `strtol` in base 10 for a `long` of 64 bits.
use turf.Prelude.{
  ℕ, suc, ◌+◌, ◌-◌, ◌*◌, ◌^◌, ◌<◌, min, ◌==◌, leb, if◌then◌else◌, Bool, true, false, ◌&&◌, ◌||◌,
  not, none, some, List, [], ◌∷◌, ◌++◌, length, length-append, ◌≡◌, refl, ap, ◌∙◌, arith,
}
use native.Mathlib.Nat.{add-mul, pow-suc, mul_assoc}
use turf.Options.{CString, Parsed, find_long}

pub record Number : Type 0 where
  pub negative : Bool
  pub magnitude : ℕ

pub data IntegerOutcome : Type 0 where
  value : Number → IntegerOutcome
  expected_integer_exit : CString → IntegerOutcome
  -- `strtol` on a null pointer
  null_read : IntegerOutcome

abbrev pub is_space : ℕ → Bool
is_space c = (c == 32) || (leb 9 c && leb c 13)

abbrev pub is_digit : ℕ → Bool
is_digit c = leb 48 c && leb c 57

abbrev pub skip_spaces : CString → CString
skip_spaces [] = []
skip_spaces (c ∷ cs) = elim (is_space c) [ true ↦ skip_spaces cs | false ↦ c ∷ cs ]

abbrev pub skip_sign : CString → Bool × CString
skip_sign [] = (false, [])
skip_sign (c ∷ cs) =
    if c == 45 then (true, cs) else (if c == 43 then (false, cs) else (false, c ∷ cs))

abbrev pub read_digits : ℕ → CString → ℕ × CString
read_digits acc [] = (acc, [])
read_digits acc (c ∷ cs) = elim (is_digit c) [
  | true ↦ read_digits (acc * 10 + (c - 48)) cs
  | false ↦ (acc, c ∷ cs)
]

abbrev pub saturate : Bool → ℕ → Number
saturate negative n = record {
  negative = negative;
  magnitude = min n (if negative then 2 ^ 63 else 2 ^ 63 - 1);
}

abbrev pub starts_with_digit : CString → Bool
starts_with_digit [] = false
starts_with_digit (c ∷ cs) = is_digit c

-- The number, and the string from `*endPtr` on; the whole string where it has no number.
pub strtol : CString → Number × CString
strtol s =
    let signed = skip_sign (skip_spaces s) in
    if starts_with_digit signed.1
    then (saturate signed.0 (read_digits 0 signed.1).0, (read_digits 0 signed.1).1)
    else (record { negative = false; magnitude = 0 }, s)

abbrev pub is_empty : CString → Bool
is_empty [] = true
is_empty (c ∷ cs) = false

pub get_integer : CString → Number → Parsed → IntegerOutcome
unfolding strtol
get_integer long_name default_value st = elim (find_long long_name st.keyword_args) [
  | none ↦ value default_value
  | some none ↦ null_read
  | some (some param) ↦
      let read = strtol param in
      if (length read.1 == length param) || not (is_empty read.1)
      then expected_integer_exit param
      else value read.0
]

abbrev pub AllSpaces : CString → Type 0
AllSpaces [] = Unit
AllSpaces (c ∷ cs) = (is_space c ≡ true) × AllSpaces cs

-- A decimal digit is written by its character.
abbrev pub AllDigits : List ℕ → Type 0
AllDigits [] = Unit
AllDigits (n ∷ ns) = (n < 10) × AllDigits ns

abbrev pub written : List ℕ → CString
written [] = []
written (n ∷ ns) = (48 + n) ∷ written ns

-- The number that the digits stand for, by the place of each: `n * 10 ^ (number of digits after it)`.
abbrev pub decimal : List ℕ → ℕ
decimal [] = 0
decimal (n ∷ ns) = n * 10 ^ length ns + decimal ns

-- No sign, a plus or a minus.
pub data Sign : Type 0 where
  unsigned : Sign
  plus : Sign
  minus : Sign

abbrev pub written_sign : Sign → CString
written_sign unsigned = []
written_sign plus = 43 ∷ []
written_sign minus = 45 ∷ []

abbrev pub is_minus : Sign → Bool
is_minus unsigned = false
is_minus plus = false
is_minus minus = true

digit-is_digit : (n : ℕ) (h : n < 10) → is_digit (48 + n) ≡ true
digit-is_digit n h = ground (arith, h)

read_one :
    (acc c : ℕ) (cs : CString) (h : is_digit c ≡ true)
    → read_digits acc (c ∷ cs) ≡ read_digits (acc * 10 + (c - 48)) cs
read_one acc c cs h = rw (h, read_digits) refl

place :
    (acc n k m : ℕ) → (acc * 10 + (48 + n - 48)) * 10 ^ k + m ≡ acc * 10 ^ suc k + (n * 10 ^ k + m)
place acc n k m =
    let digit : 48 + n - 48 ≡ n = omega arith in
    let shift : acc * 10 * 10 ^ k ≡ acc * 10 ^ suc k =
      mul_assoc acc 10 (10 ^ k) ∙ ap (λ (t : ℕ). acc * t) (omega (arith, pow-suc 10 k)) in
    rw digit (omega (arith, add-mul (acc * 10) n (10 ^ k), shift))

read_digits-written :
    (acc : ℕ) (ns : List ℕ) (digits : AllDigits ns)
    → read_digits acc (written ns) ≡ (acc * 10 ^ length ns + decimal ns, [])
read_digits-written acc [] digits = ap (λ (k : ℕ). (k, [])) (omega arith)
read_digits-written acc (n ∷ ns) (h, digits) =
    let value : (acc * 10 + (48 + n - 48)) * 10 ^ length ns + decimal ns
        ≡ acc * 10 ^ suc (length ns) + (n * 10 ^ length ns + decimal ns) =
      place acc n (length ns) (decimal ns) in
    read_one acc (48 + n) (written ns) (digit-is_digit n h)
    ∙ read_digits-written (acc * 10 + (48 + n - 48)) ns digits
    ∙ ap (λ (k : ℕ). (k, [])) value

skip_one : (c : ℕ) (cs : CString) (h : is_space c ≡ true) → skip_spaces (c ∷ cs) ≡ skip_spaces cs
skip_one c cs h = rw (h, skip_spaces) refl

skip_none : (c : ℕ) (cs : CString) (h : is_space c ≡ false) → skip_spaces (c ∷ cs) ≡ c ∷ cs
skip_none c cs h = rw (h, skip_spaces) refl

skip_spaces_all : (ws s : CString) (spaces : AllSpaces ws) → skip_spaces (ws ++ s) ≡ skip_spaces s
skip_spaces_all [] s spaces = refl
skip_spaces_all (c ∷ ws) s (h, spaces) = skip_one c (ws ++ s) h ∙ skip_spaces_all ws s spaces

no_sign :
    (c : ℕ) (cs : CString) (no_minus : (c == 45) ≡ false) (no_plus : (c == 43) ≡ false)
    → skip_sign (c ∷ cs) ≡ (false, c ∷ cs)
no_sign c cs no_minus no_plus = rw (no_minus, no_plus, skip_sign) refl

-- A sign and a digit are no spaces.
signed_number :
    (sign : Sign) (n : ℕ) (ns : List ℕ) (h : n < 10)
    → skip_sign (skip_spaces (written_sign sign ++ written (n ∷ ns)))
      ≡ (is_minus sign, written (n ∷ ns))
signed_number unsigned n ns h =
    let space : is_space (48 + n) ≡ false = ground arith in
    let no_minus : ((48 + n) == 45) ≡ false = ground arith in
    let no_plus : ((48 + n) == 43) ≡ false = ground arith in
    ap skip_sign (skip_none (48 + n) (written ns) space)
    ∙ no_sign (48 + n) (written ns) no_minus no_plus
signed_number plus n ns h = refl
signed_number minus n ns h = refl

after_sign :
    (s : CString) (r : Bool × CString) (same : skip_sign (skip_spaces s) ≡ r)
    (digit : starts_with_digit r.1 ≡ true)
    → strtol s ≡ (saturate r.0 (read_digits 0 r.1).0, (read_digits 0 r.1).1)
unfolding strtol
after_sign s r same digit = rw (same, digit, strtol) refl

strtol-written :
    (ws : CString) (sign : Sign) (n : ℕ) (ns : List ℕ) (spaces : AllSpaces ws) (h : n < 10)
    (digits : AllDigits ns)
    → strtol (ws ++ (written_sign sign ++ written (n ∷ ns)))
      ≡ (saturate (is_minus sign) (decimal (n ∷ ns)), [])
strtol-written ws sign n ns spaces h digits =
    after_sign (ws ++ (written_sign sign ++ written (n ∷ ns))) (is_minus sign, written (n ∷ ns))
      (ap skip_sign (skip_spaces_all ws (written_sign sign ++ written (n ∷ ns)) spaces)
        ∙ signed_number sign n ns h)
      (digit-is_digit n h)
    ∙ ap (λ (r : ℕ × CString). (saturate (is_minus sign) r.0, r.1))
        (read_digits-written 0 (n ∷ ns) (h, digits) ∙ ap (λ (k : ℕ). (k, [])) (omega arith))

as_read :
    (name : CString) (default_value : Number) (st : Parsed) (param : CString) (number : Number)
    (given : find_long name st.keyword_args ≡ some (some param))
    (read : strtol param ≡ (number, [])) (some_digit : (length {A = ℕ} [] == length param) ≡ false)
    → get_integer name default_value st ≡ value number
unfolding get_integer
as_read name default_value st param number given read some_digit =
    rw (given, get_integer) (rw (read, some_digit) refl)

-- The parameter is spaces, a sign or none, and digits: `getInteger` returns the number that the
-- digits stand for, cut to the range of `long`.
pub get_integer-decimal :
    (name : CString) (default_value : Number) (st : Parsed) (ws : CString) (sign : Sign) (n : ℕ)
    (ns : List ℕ) (spaces : AllSpaces ws) (first : n < 10) (digits : AllDigits ns)
    (given : find_long name st.keyword_args
      ≡ some (some (ws ++ (written_sign sign ++ written (n ∷ ns)))))
    → get_integer name default_value st ≡ value (saturate (is_minus sign) (decimal (n ∷ ns)))
unfolding get_integer
get_integer-decimal name default_value st ws sign n ns spaces first digits given =
    let param = ws ++ (written_sign sign ++ written (n ∷ ns)) in
    let read = strtol-written ws sign n ns spaces first digits in
    let some_digit : (length {A = ℕ} [] == length param) ≡ false = ground (
      arith,
      length-append ws (written_sign sign ++ written (n ∷ ns)),
      length-append (written_sign sign) (written (n ∷ ns)),
    ) in
    as_read name default_value st param _ given read some_digit
