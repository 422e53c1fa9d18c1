-- ===== src/Common/Text.antt =====
-- Byte strings: `std::string` and C strings as lists of bytes.
use Prim.Native.Nat.{ℕ, ◌<◌, ◌≤◌}
use Prim.Native.Char.{code}
use Prim.Native.String.{String}
use mathlib.Core.Path.{◌≡◌, refl, sym, ap, ◌∙◌}
use mathlib.Core.Logic.{◌↔◌, ◌≢◌}
use mathlib.Core.Bool.{Bool, true, false, ◌&&◌}
use mathlib.Core.Option.{Option, none, some}
use mathlib.Core.List.{List, [], ◌∷◌, ◌++◌}
use native.Mathlib.Omega.{arith}
use ridingthecode.Common.Tests.{leb, ◌==◌, if◌then◌else◌}
use ridingthecode.Common.Lists.{length, drop, length-append, drop-length-append}

abbrev pub Bytes : Type 0
Bytes = List ℕ

-- the bytes of an ASCII text
abbrev pub codes : String → Bytes
codes String.[] = []
codes (String.◌∷◌ c s) = code c ∷ codes s

-- `s.compare(t) == 0`, and `strcmp(s, t) == 0` on strings cut at their NUL
unfoldable pub same_bytes : Bytes → Bytes → Bool
same_bytes [] [] = true
same_bytes [] (y ∷ ys) = false
same_bytes (x ∷ xs) [] = false
same_bytes (x ∷ xs) (y ∷ ys) = x == y && same_bytes xs ys

pub same_bytes→eq : (xs ys : Bytes) → same_bytes xs ys ≡ true → xs ≡ ys
unfolding same_bytes
same_bytes→eq [] [] h = refl
same_bytes→eq [] (y ∷ ys) h = cc
same_bytes→eq (x ∷ xs) [] h = cc
same_bytes→eq (x ∷ xs) (y ∷ ys) h = ground (arith, same_bytes→eq xs ys)

pub same_bytes_refl : (xs : Bytes) → same_bytes xs xs ≡ true
unfolding same_bytes
same_bytes_refl [] = refl
same_bytes_refl (x ∷ xs) = ground (arith, same_bytes_refl xs)

pub same_bytes_iff : (xs ys : Bytes) → (same_bytes xs ys ≡ true) ↔ (xs ≡ ys)
same_bytes_iff xs ys = (same_bytes→eq xs ys, λ e. subst_refl ys e)
  where
    subst_refl : (ys : Bytes) → xs ≡ ys → same_bytes xs ys ≡ true
    subst_refl ys e = rw (← e) (same_bytes_refl xs)

pub drop-front : (p : ℕ) (xs ys : Bytes) → length xs ≡ p → drop p (xs ++ ys) ≡ ys
drop-front p xs ys h = ap (λ k. drop k (xs ++ ys)) (sym h) ∙ drop-length-append xs ys

-- the part before the first `c`: `s.substr(0, s.find(c))`, and a C string for `c` zero
unfoldable pub before : ℕ → Bytes → Bytes
before c [] = []
before c (x ∷ xs) = let rest = x ∷ before c xs in if x == c then [] else rest

abbrev pub c_string : Bytes → Bytes
c_string = before 0

-- `s.substr(p)`; none where it throws `std::out_of_range`
abbrev pub substr : ℕ → Bytes → Option Bytes
substr p s = if leb p (length s) then some (drop p s) else none

-- no byte of the string is `c`
abbrev pub Avoids : ℕ → Bytes → Type 0
Avoids c [] = Unit {0}
Avoids c (x ∷ xs) = (x ≢ c) × Avoids c xs

pub before-append : (c : ℕ) (xs ys : Bytes) → Avoids c xs → before c (xs ++ c ∷ ys) ≡ xs
unfolding before
before-append c [] ys h = ground arith
before-append c (x ∷ xs) ys h = ground (arith, before-append c xs ys h.1)

pub before_all : (c : ℕ) (xs : Bytes) → Avoids c xs → before c xs ≡ xs
unfolding before
before_all c [] h = refl
before_all c (x ∷ xs) h = ground (arith, before_all c xs h.1)

pub substr_front : (p : ℕ) (xs ys : Bytes) → length xs ≡ p → substr p (xs ++ ys) ≡ some ys
substr_front p xs ys h = ground (arith, length-append xs ys, drop-front p xs ys h)

pub substr_short : (p : ℕ) (xs : Bytes) → length xs < p → substr p xs ≡ none
substr_short p xs h = ground arith

pub length-before-le : (c : ℕ) (xs : Bytes) → length (before c xs) ≤ length xs
unfolding before
length-before-le c [] = omega arith
length-before-le c (x ∷ xs) = ground (arith, length-before-le c xs)

-- What stands before the first `c` is the whole string where it is as long.
pub before_whole : (c : ℕ) (xs : Bytes) → length xs ≤ length (before c xs) → before c xs ≡ xs
unfolding before
before_whole c [] h = refl
before_whole c (x ∷ xs) h = ground (arith, before_whole c xs)

-- A first word as long as the string that it starts is that string.
pub first_word_alone :
    (xs word : Bytes)
    → same_bytes (before b' ' xs) word ≡ true
    → length xs ≤ length word
    → xs ≡ word
first_word_alone xs word h k =
    sym (before_whole b' ' xs (rw (same_bytes→eq (before b' ' xs) word h) k))
    ∙ same_bytes→eq (before b' ' xs) word h
