-- ===== src/App/Numbers.antt =====
-- The numbers that the programs read with `atoi`, `strtoul` and `sscanf`, as the C library of Linux reads them: in a long
-- of 64 bits that ends at its greatest values.
use omni_socket.Base.{
  ℕ, zero, suc, ◌+◌, ◌-◌, ◌*◌, ◌/◌, ◌%◌, ◌^◌, ◌≤◌, ◌<◌, ◌≡◌, ◌∙◌, ap, Bool, true, false, [], ◌∷◌,
  Bytes, Option, none, some, ltb, leb, le→leb, ltb→lt, ltb→le, ◌==◌, ◌||◌, ◌&&◌, if◌then◌else◌,
  arith, ℤ, pos, negsuc, Bool-cases, inl, inr,
}

-- `isspace`
abbrev pub is_space : ℕ → Bool
is_space c = c == 32 || (leb 9 c && leb c 13)

abbrev pub skip_space : Bytes → Bytes
skip_space [] = []
skip_space (c ∷ cs) = let rest = skip_space cs in if is_space c then rest else c ∷ cs

-- The digits at the front, as a number after `acc`; `seen` says whether there was one.
abbrev pub scan_digits : Bool → ℕ → Bytes → Option ℕ
scan_digits seen acc [] = if seen then some acc else none
scan_digits seen acc (c ∷ cs) =
    let more = scan_digits true (acc * 10 + (c - 48)) cs in
    if leb 48 c && leb c 57 then more else if seen then some acc else none

-- A number with its sign, which is true for minus.
abbrev pub signed_with : Bool → Option ℕ → Option (Bool × ℕ)
signed_with minus none = none
signed_with minus (some n) = some (minus, n)

abbrev pub scan_signed : Bytes → Option (Bool × ℕ)
scan_signed [] = none
scan_signed (c ∷ cs) =
    if c == 45
    then signed_with true (scan_digits false 0 cs)
    else if c == 43
    then signed_with false (scan_digits false 0 cs)
    else signed_with false (scan_digits false 0 (c ∷ cs))

-- 32 bits of a number that was read as an unsigned long: this ends at its greatest value, and is negated for a minus
-- sign.
abbrev pub as_unsigned : Bool → ℕ → ℕ
as_unsigned minus n =
    if leb (2 ^ 64) n then 2 ^ 32 - 1 else if minus then (2 ^ 64 - n) % 2 ^ 32 else n % 2 ^ 32

abbrev pub unsigned_of : Option (Bool × ℕ) → Option ℕ
unsigned_of none = none
unsigned_of (some (minus, n)) = some (as_unsigned minus n)

-- `%u` of scanf
abbrev pub scan_unsigned : Bytes → Option ℕ
scan_unsigned cs = unsigned_of (scan_signed cs)

abbrev pub or_zero : Option ℕ → ℕ
or_zero none = 0
or_zero (some n) = n

-- `(unsigned)strtoul(text, NULL, 10)`
abbrev pub strtoul : Bytes → ℕ
strtoul text = or_zero (scan_unsigned (skip_space text))

-- 32 bits as an `int`
abbrev pub signed_32 : ℕ → ℤ
signed_32 u = if ltb u (2 ^ 31) then pos u else negsuc (2 ^ 32 - 1 - u)

-- An `int` of a number that was read as a long, which ends at its least and greatest values.
abbrev pub as_int : Option (Bool × ℕ) → ℤ
as_int none = pos 0
as_int (some (true, n)) = if ltb (2 ^ 63) n then pos 0 else signed_32 ((2 ^ 64 - n) % 2 ^ 32)
as_int (some (false, n)) = if leb (2 ^ 63) n then negsuc 0 else signed_32 (n % 2 ^ 32)

-- `atoi(text)`, which is `(int)strtol(text, NULL, 10)`
unfoldable pub atoi : Bytes → ℤ
atoi text = as_int (scan_signed (skip_space text))

-- A number in decimal, before `tail`; the fuel is at least its number of digits.
abbrev decimal_before : ℕ → ℕ → Bytes → Bytes
decimal_before zero n tail = tail
decimal_before (suc fuel) n tail =
    let more = decimal_before fuel (n / 10) ((48 + n % 10) ∷ tail) in
    if ltb n 10 then (48 + n) ∷ tail else more

abbrev pub decimal : ℕ → Bytes
decimal n = decimal_before (suc n) n []

scan_digit :
    (seen : Bool) (acc d : ℕ) (cs : Bytes)
    → d < 10
    → scan_digits seen acc ((48 + d) ∷ cs) ≡ scan_digits true (acc * 10 + d) cs
scan_digit seen acc d cs digit =
    rw (le→leb 48 (48 + d) (omega arith), le→leb (48 + d) 57 (omega arith))
      (ap (λ k. scan_digits true (acc * 10 + k) cs) (omega arith))

scan_decimal :
    (fuel n : ℕ) (tail : Bytes)
    → n < fuel
    → scan_digits false 0 (decimal_before fuel n tail) ≡ scan_digits true n tail
scan_decimal zero n tail enough = absurd (omega arith)
scan_decimal (suc fuel) n tail enough = elim (Bool-cases (ltb n 10)) [
  | inl small ↦ rw small (
      scan_digit false 0 n tail (ltb→lt n 10 small)
      ∙ ap (λ k. scan_digits true k tail) (omega arith))
  | inr large ↦ rw large (
      scan_decimal fuel (n / 10) ((48 + n % 10) ∷ tail) (omega (arith, ltb→le n 10 large))
      ∙ scan_digit true (n / 10) (n % 10) tail (omega arith)
      ∙ ap (λ k. scan_digits true k tail) (omega arith))
]

abbrev IsDigitFirst : Bytes → Type 0
IsDigitFirst [] = ⊥
IsDigitFirst (c ∷ cs) = (48 ≤ c) × (c ≤ 57)

decimal_before-IsDigitFirst :
    (fuel n : ℕ) (tail : Bytes) → n < fuel → IsDigitFirst (decimal_before fuel n tail)
decimal_before-IsDigitFirst zero n tail enough = absurd (omega arith)
decimal_before-IsDigitFirst (suc fuel) n tail enough = elim (Bool-cases (ltb n 10)) [
  | inl small ↦ rw small (omega arith, omega (arith, ltb→lt n 10 small))
  | inr large ↦ rw large (
      decimal_before-IsDigitFirst fuel (n / 10) ((48 + n % 10) ∷ tail)
        (omega (arith, ltb→le n 10 large)))
]

scan_signed-digits :
    (cs : Bytes)
    → IsDigitFirst cs
    → scan_signed (skip_space cs) ≡ signed_with false (scan_digits false 0 cs)
scan_signed-digits [] first = absurd first
scan_signed-digits (c ∷ cs) (low, high) = ground arith

as_int_small : (n : ℕ) → n < 2 ^ 31 → as_int (some (false, n)) ≡ pos n
as_int_small n small = ground arith

-- A number in decimal is read as itself, if it is an `int`.
pub atoi-decimal : (n : ℕ) → n < 2 ^ 31 → atoi (decimal n) ≡ pos n
unfolding atoi
atoi-decimal n small =
    ap as_int (
      scan_signed-digits (decimal n) (decimal_before-IsDigitFirst (suc n) n [] (omega arith))
      ∙ ap (signed_with false) (scan_decimal (suc n) n [] (omega arith)))
    ∙ as_int_small n small
