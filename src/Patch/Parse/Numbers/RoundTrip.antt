-- ===== src/Patch/Parse/Numbers/RoundTrip.antt =====
-- Numbers that src/patch/parse/numbers.rs reads back from their decimal print.
use stgit.Prelude.{
  Text, ℕ, zero, suc, ◌+◌, ◌-◌, ◌*◌, ◌/◌, ◌%◌, ◌^◌, ◌<◌, Bool, Bool-cases, inl, inr, true, false,
  ◌&&◌, is_empty, none, some, [], ◌∷◌, ◌++◌, ◌≡◌, refl, ap, ◌∙◌, arith, length, take, drop, all,
  ltb, leb, if◌then◌else◌, pos, format_digits, format_usize, digits_value, parse_isize, read_isize,
  checked_isize, fits_isize,
}
use stgit.Patch.Parse.Parsed.{read, backtrack}
use stgit.Patch.Parse.Winnow.{Winnow, IsWinnow, is_digit, run, run1}
use stgit.Patch.Parse.Numbers.{unsigned_int, as_usize}

digits_value-digit :
    (n d : ℕ) (after : Text)
    → d < 10
    → digits_value n ((b'0' + d) ∷ after) ≡ digits_value (n * 10 + d) after
unfolding digits_value
digits_value-digit n d after h =
    let e : n * 10 + (b'0' + d - b'0') ≡ n * 10 + d = omega arith in
    ap (λ k. if leb b'0' (b'0' + d) && leb (b'0' + d) b'9' then digits_value k after else none) e
    ∙ ground arith

digits_value-format_digits :
    (fuel n : ℕ) (after : Text)
    → n < fuel
    → digits_value 0 (format_digits fuel n after) ≡ digits_value n after
unfolding format_digits
digits_value-format_digits zero n after h = absurd (omega arith)
digits_value-format_digits (suc fuel) n after h = elim (Bool-cases (ltb n 10)) [
  | inl y ↦
      rw (y, format_digits)
        (digits_value-digit 0 n after (ground arith) ∙ ap (λ k. digits_value k after) (omega arith))
  | inr m ↦
      rw (m, format_digits)
        (digits_value-format_digits fuel (n / 10) ((b'0' + n % 10) ∷ after) (ground arith)
          ∙ digits_value-digit (n / 10) (n % 10) after (omega arith)
          ∙ ap (λ k. digits_value k after) (omega arith))
]

all-format_digits :
    (fuel n : ℕ) (after : Text)
    → all is_digit after ≡ true
    → all is_digit (format_digits fuel n after) ≡ true
unfolding format_digits is_digit
all-format_digits zero n after h = h
all-format_digits (suc fuel) n after h =
    ground (arith, all-format_digits fuel (n / 10) ((b'0' + n % 10) ∷ after))

is_empty-format_digits :
    (fuel n : ℕ) (after : Text)
    → is_empty after ≡ false
    → is_empty (format_digits fuel n after) ≡ false
unfolding format_digits
is_empty-format_digits zero n after h = h
is_empty-format_digits (suc fuel) n after h =
    ground (arith, is_empty-format_digits fuel (n / 10) ((b'0' + n % 10) ∷ after) refl)

is_empty-format_usize : (n : ℕ) → is_empty (format_usize n) ≡ false
unfolding format_digits
is_empty-format_usize n =
    ground (arith, is_empty-format_digits n (n / 10) ((b'0' + n % 10) ∷ []) refl)

run-append :
    (p : ℕ → Bool) (xs rest : Text)
    → all p xs ≡ true
    → run p rest ≡ 0
    → run p (xs ++ rest) ≡ length xs
unfolding run
run-append p [] rest h k = k
run-append p (x ∷ xs) rest h k = ground (arith, run-append p xs rest)

take-append : (xs rest : Text) → take (length xs) (xs ++ rest) ≡ xs
take-append [] rest = refl
take-append (x ∷ xs) rest = ap (◌∷◌ x) (take-append xs rest)

drop-append : (xs rest : Text) → drop (length xs) (xs ++ rest) ≡ rest
drop-append [] rest = refl
drop-append (x ∷ xs) rest = drop-append xs rest

pub run1-append :
    (p : ℕ → Bool) (xs rest : Text)
    → all p xs ≡ true
    → run p rest ≡ 0
    → is_empty xs ≡ false
    → run1 p (xs ++ rest) ≡ read xs rest
run1-append p xs rest h k e =
    rw (run-append p xs rest h k, take-append xs rest, drop-append xs rest, e) refl

parse_isize-digits :
    (s : Text)
    → is_empty s ≡ false
    → all is_digit s ≡ true
    → parse_isize s ≡ read_isize pos (digits_value 0 s)
unfolding parse_isize is_digit
parse_isize-digits [] e h = cc
parse_isize-digits (c ∷ s) e h = ground arith

pub parse_isize-format_usize : (n : ℕ) → n < 2 ^ 63 → parse_isize (format_usize n) ≡ some (pos n)
unfolding digits_value checked_isize fits_isize
parse_isize-format_usize n h =
    parse_isize-digits (format_usize n) (is_empty-format_usize n)
      (all-format_digits (suc n) n [] refl)
    ∙ ap (read_isize pos) (digits_value-format_digits (suc n) n [] (omega arith))
    ∙ ground arith

module _ (w : Winnow) (law : IsWinnow w) where
  pub unsigned_int-format_usize :
      (n : ℕ) (rest : Text)
      → n < 2 ^ 63
      → run is_digit rest ≡ 0
      → unsigned_int w (format_usize n ++ rest) ≡ read n rest
  unfolding unsigned_int as_usize
  unsigned_int-format_usize n rest h k =
      rw
        (
          law.try_map_lem _ _ _,
          law.digit1_lem _,
          run1-append is_digit (format_usize n) rest (all-format_digits (suc n) n [] refl) k
              (is_empty-format_usize n),
          parse_isize-format_usize n h,
        )
        refl

  pub unsigned_int-none : (rest : Text) → run is_digit rest ≡ 0 → unsigned_int w rest ≡ backtrack
  unfolding unsigned_int
  unsigned_int-none rest k = rw (law.try_map_lem _ _ _, law.digit1_lem _, k) refl
