-- ===== src/Prelude/Integers.antt =====
-- Rust's `isize` and `usize` on 64 bits: integers over the native numbers, under the library's
-- names, with the operations of the standard library that the program calls and the printing and
-- the reading of decimal numbers.
use Prim.Native.Nat.{ℕ, zero, suc, ◌+◌, ◌-◌, ◌*◌, ◌/◌, ◌%◌, ◌^◌}
use mathlib.Core.Bool.{Bool, ◌&&◌}
use mathlib.Core.List.{[], ◌∷◌}
use mathlib.Core.Option.{Option, none, some}
use stgit.Prelude.Tests.{ltb, leb, nat_eq, if◌then◌else◌}
use stgit.Prelude.Texts.{Text}

-- `negsuc n` stands for -(n + 1).
pub data ℤ : Type 0 where
  pos negsuc : ℕ → ℤ

-- The difference of two numbers.
abbrev pub sub_ℕ : ℕ → ℕ → ℤ
sub_ℕ a b = if ltb a b then negsuc (b - a - 1) else pos (a - b)

infixl 65 ◌+ℤ◌
unfoldable pub ◌+ℤ◌ : ℤ → ℤ → ℤ
pos a +ℤ pos b = pos (a + b)
pos a +ℤ negsuc b = sub_ℕ a (suc b)
negsuc a +ℤ pos b = sub_ℕ b (suc a)
negsuc a +ℤ negsuc b = negsuc (suc (a + b))

unfoldable pub negate : ℤ → ℤ
negate (pos zero) = pos 0
negate (pos (suc n)) = negsuc n
negate (negsuc n) = pos (suc n)

-- The values of `isize`.
unfoldable pub fits_isize : ℤ → Bool
fits_isize (pos n) = ltb n (2 ^ 63)
fits_isize (negsuc n) = ltb n (2 ^ 63)

unfoldable pub checked_isize : ℤ → Option ℤ
checked_isize z = if fits_isize z then some z else none

-- `n as isize`
unfoldable pub as_isize : ℕ → ℤ
as_isize n = if ltb n (2 ^ 63) then pos n else sub_ℕ n (2 ^ 64)

-- `unsigned_abs`
abbrev pub unsigned_abs : ℤ → ℕ
unsigned_abs (pos n) = n
unsigned_abs (negsuc n) = suc n

-- The value of digits, read after a number.
unfoldable pub digits_value : ℕ → Text → Option ℕ
digits_value n [] = some n
digits_value n (c ∷ rest) =
    let more = digits_value (n * 10 + (c - b'0')) rest in
    if leb b'0' c && leb c b'9' then more else none

abbrev pub digits_number : Text → Option ℕ
digits_number [] = none
digits_number (c ∷ rest) = digits_value 0 (c ∷ rest)

abbrev pub read_isize : (ℕ → ℤ) → Option ℕ → Option ℤ
read_isize sign none = none
read_isize sign (some n) = checked_isize (sign n)

-- `parse::<isize>`
unfoldable pub parse_isize : Text → Option ℤ
parse_isize [] = none
parse_isize (c ∷ rest) =
    if nat_eq c b'-'
    then read_isize (λ n. negate (pos n)) (digits_number rest)
    else if nat_eq c b'+'
    then read_isize pos (digits_number rest)
    else read_isize pos (digits_number (c ∷ rest))

-- The decimal digits of a number before the given ones; with the fuel n + 1 all of them.
unfoldable pub format_digits : ℕ → ℕ → Text → Text
format_digits zero n after = after
format_digits (suc fuel) n after =
    let more = format_digits fuel (n / 10) ((b'0' + n % 10) ∷ after) in
    if ltb n 10 then (b'0' + n) ∷ after else more

-- `{n}`
abbrev pub format_usize : ℕ → Text
format_usize n = format_digits (suc n) n []

abbrev pub format_isize : ℤ → Text
format_isize (pos n) = format_usize n
format_isize (negsuc n) = b'-' ∷ format_usize (suc n)

-- `{n:+}`
abbrev pub format_signed : ℤ → Text
format_signed (pos n) = b'+' ∷ format_usize n
format_signed (negsuc n) = b'-' ∷ format_usize (suc n)
