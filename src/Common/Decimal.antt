-- ===== src/Common/Decimal.antt =====
-- `stream >> n` for an `int` and an `unsigned int`, and the decimal text that it reads back.
use Prim.Native.Nat.{ℕ, zero, suc, ◌+◌, ◌-◌, ◌*◌, ◌/◌, ◌%◌, ◌^◌, ◌<◌, ◌≤◌}
use mathlib.Core.Path.{◌≡◌, refl, subst, ap}
use mathlib.Core.Bool.{Bool, true, false, ◌&&◌, ◌||◌}
use mathlib.Core.Option.{Option, none, some}
use mathlib.Core.List.{[], ◌∷◌, ◌++◌}
use native.Mathlib.Omega.{arith}
use native.Mathlib.Nat.{pow-succ'}
use ridingthecode.Common.Tests.{leb, ltb, ◌==◌, if◌then◌else◌}
use ridingthecode.Common.Lists.{length, length-append}
use ridingthecode.Common.Text.{Bytes, Avoids}
use ridingthecode.Common.Int.{ℤ, pos, negsuc}

unfoldable pub is_space : ℕ → Bool
is_space c = c == 32 || leb 9 c && leb c 13

unfoldable pub is_digit : ℕ → Bool
is_digit c = leb b'0' c && leb c b'9'

unfoldable pub skip_space : Bytes → Bytes
skip_space [] = []
skip_space (c ∷ cs) = let rest = skip_space cs in if is_space c then rest else c ∷ cs

-- the number that the leading digits spell
unfoldable pub read_digits : ℕ → Bytes → ℕ
read_digits acc [] = acc
read_digits acc (c ∷ cs) =
    let rest = read_digits (acc * 10 + (c - b'0')) cs in if is_digit c then rest else acc

-- the sign and the digits of a number
pub data Field : Type 0 where
  field : Bool → Bytes → Field

split_sign : Bytes → Field
split_sign [] = field false []
split_sign (c ∷ cs) =
    if c == b'-' then field true cs else if c == b'+' then field false cs else field false (c ∷ cs)

-- An `int`: 0 where no digit stands, the nearest limit where the number does not fit.
int_field : Field → ℤ
int_field (field negative ds) =
    let n = read_digits 0 ds in
    if negative
    then if n == 0 then pos 0 else if leb n (2 ^ 31) then negsuc (n - 1) else negsuc (2 ^ 31 - 1)
    else if ltb n (2 ^ 31)
    then pos n
    else pos (2 ^ 31 - 1)

-- An `unsigned int`: a negative number wraps; one that does not fit gives the maximum.
unsigned_field : Field → ℕ
unsigned_field (field negative ds) =
    let n = read_digits 0 ds in
    if ltb n (2 ^ 32) then if negative then (2 ^ 32 - n) % 2 ^ 32 else n else 2 ^ 32 - 1

-- `none` where the stream has no character left: the variable keeps its value.
extract {ℓ} : {A : Type ℓ} → (Field → A) → Bytes → Option A
extract f [] = none
extract f (c ∷ cs) = some (f (split_sign (c ∷ cs)))

unfoldable pub extract_int : Bytes → Option ℤ
unfolding extract split_sign int_field skip_space read_digits is_space is_digit
extract_int s = extract int_field (skip_space s)

unfoldable pub extract_unsigned : Bytes → Option ℕ
unfolding extract split_sign unsigned_field skip_space read_digits is_space is_digit
extract_unsigned s = extract unsigned_field (skip_space s)

-- The decimal text of a number, as `operator<<` prints it.
decimal_fuel : ℕ → ℕ → Bytes
decimal_fuel zero n = []
decimal_fuel (suc f) n =
    let rest = decimal_fuel f (n / 10) ++ (b'0' + n % 10) ∷ [] in
    if ltb n 10 then (b'0' + n) ∷ [] else rest

unfoldable pub decimal : ℕ → Bytes
unfolding decimal_fuel
decimal n = decimal_fuel (suc n) n

abbrev AllDigits : Bytes → Type 0
AllDigits [] = Unit {0}
AllDigits (c ∷ cs) = (is_digit c ≡ true) × AllDigits cs

AllDigits-append : (xs ys : Bytes) → AllDigits xs → AllDigits ys → AllDigits (xs ++ ys)
AllDigits-append [] ys h k = k
AllDigits-append (x ∷ xs) ys h k = (h.0, AllDigits-append xs ys h.1 k)

read_digits-append :
    (acc : ℕ) (xs ys : Bytes)
    → AllDigits xs
    → read_digits acc (xs ++ ys) ≡ read_digits (read_digits acc xs) ys
unfolding read_digits
read_digits-append acc [] ys h = refl
read_digits-append acc (x ∷ xs) ys h =
    ground (arith, read_digits-append (acc * 10 + (x - b'0')) xs ys h.1)

decimal_fuel-AllDigits : (f n : ℕ) → AllDigits (decimal_fuel f n)
unfolding decimal_fuel is_digit
decimal_fuel-AllDigits zero n = tt
decimal_fuel-AllDigits (suc f) n = ground (
  arith,
  AllDigits-append (decimal_fuel f (n / 10)) ((b'0' + n % 10) ∷ [])
      (decimal_fuel-AllDigits f (n / 10)),
)

read_digits-decimal_fuel : (f n : ℕ) → n < f → read_digits 0 (decimal_fuel f n) ≡ n
unfolding decimal_fuel read_digits is_digit
read_digits-decimal_fuel zero n h = absurd (omega arith)
read_digits-decimal_fuel (suc f) n h = ground (
  arith,
  read_digits-append 0 (decimal_fuel f (n / 10)) ((b'0' + n % 10) ∷ []),
  decimal_fuel-AllDigits f (n / 10),
  read_digits-decimal_fuel f (n / 10),
)

-- a text that starts with a digit
abbrev StartsDigit : Bytes → Type 0
StartsDigit [] = ⊥
StartsDigit (c ∷ cs) = is_digit c ≡ true

StartsDigit-append : (xs ys : Bytes) → StartsDigit xs → StartsDigit (xs ++ ys)
StartsDigit-append [] ys h = absurd h
StartsDigit-append (x ∷ xs) ys h = h

decimal_fuel-StartsDigit : (f n : ℕ) → n < f → StartsDigit (decimal_fuel f n)
unfolding decimal_fuel is_digit
decimal_fuel-StartsDigit zero n h = absurd (omega arith)
decimal_fuel-StartsDigit (suc f) n h = ground (
  arith,
  StartsDigit-append (decimal_fuel f (n / 10)) ((b'0' + n % 10) ∷ []),
  decimal_fuel-StartsDigit f (n / 10),
)

extract_digits :
    {A : Type 0} (g : Field → A) (xs : Bytes)
    → StartsDigit xs
    → extract g (skip_space xs) ≡ some (g (field false xs))
unfolding extract split_sign skip_space is_digit is_space
extract_digits g [] h = absurd h
extract_digits g (c ∷ cs) h = ground arith

-- What `operator<<` prints, `operator>>` reads back.
pub extract_int-decimal : (n : ℕ) → n < 2 ^ 31 → extract_int (decimal n) ≡ some (pos n)
unfolding extract_int decimal int_field
extract_int-decimal n h = ground (
  arith,
  extract_digits int_field (decimal n) (decimal_fuel-StartsDigit (suc n) n (omega arith)),
  read_digits-decimal_fuel (suc n) n,
)

pub extract_unsigned-decimal : (n : ℕ) → n < 2 ^ 32 → extract_unsigned (decimal n) ≡ some n
unfolding extract_unsigned decimal unsigned_field
extract_unsigned-decimal n h = ground (
  arith,
  extract_digits unsigned_field (decimal n) (decimal_fuel-StartsDigit (suc n) n (omega arith)),
  read_digits-decimal_fuel (suc n) n,
)

AllDigits-Avoids : (c : ℕ) (xs : Bytes) → is_digit c ≡ false → AllDigits xs → Avoids c xs
unfolding is_digit
AllDigits-Avoids c [] h k = tt
AllDigits-Avoids c (x ∷ xs) h k = (ground (arith, k.0), AllDigits-Avoids c xs h k.1)

-- The text has digits only.
pub decimal-Avoids : (c n : ℕ) → is_digit c ≡ false → Avoids c (decimal n)
unfolding decimal
decimal-Avoids c n h =
    AllDigits-Avoids c (decimal_fuel (suc n) n) h (decimal_fuel-AllDigits (suc n) n)

length-decimal_fuel-le : (k f n : ℕ) → n < 10 ^ suc k → length (decimal_fuel f n) ≤ suc k
unfolding decimal_fuel
length-decimal_fuel-le k zero n h = omega arith
length-decimal_fuel-le zero (suc f) n h = ground arith
length-decimal_fuel-le (suc k) (suc f) n h = ground (
  arith,
  length-append (decimal_fuel f (n / 10)) ((b'0' + n % 10) ∷ []),
  length-decimal_fuel-le k f (n / 10)
      (quotient n (10 ^ suc k) (subst (λ q. n < q) (pow-succ' 10 (suc k)) h)),
)
  where
    quotient : (n p : ℕ) → n < 10 * p → n / 10 < p
    quotient n p h = omega arith

-- An `int` has ten digits at most.
pub length-decimal-le : (n : ℕ) → n < 2 ^ 31 → length (decimal n) ≤ 10
unfolding decimal
length-decimal-le n h = length-decimal_fuel-le 9 (suc n) n (omega (arith, h))

-- `atoi`, which gives 0 for no number and the nearest limit for one that does not fit
abbrev pub or_zero : Option ℤ → ℤ
or_zero none = pos 0
or_zero (some n) = n

unfoldable pub atoi : Bytes → ℤ
atoi text = or_zero (extract_int text)

pub atoi-decimal : (n : ℕ) → n < 2 ^ 31 → atoi (decimal n) ≡ pos n
unfolding atoi
atoi-decimal n h = ap or_zero (extract_int-decimal n h)

-- A number has a digit.
pub length-decimal-pos : (n : ℕ) → 0 < length (decimal n)
unfolding decimal decimal_fuel
length-decimal-pos n =
    ground (arith, length-append {0} (decimal_fuel n (n / 10)) ((b'0' + n % 10) ∷ []))
