-- ===== src/Patch/Parse/Numbers.antt =====
-- src/patch/parse/numbers.rs, and `enum Sign` of src/patch/parse/mod.rs.
pub mod RoundTrip
use stgit.Prelude.{
  Text, ℕ, Option, none, some, codes, ℤ, parse_isize, unsigned_abs, pos, negsuc, ◌-◌, ◌^◌,
}
use stgit.Patch.Parse.Winnow.{Winnow, Parser}

pub data Sign : Type 0 where
  plus minus : Sign

-- `n as usize`
unfoldable pub as_usize : ℤ → ℕ
as_usize (pos n) = n
as_usize (negsuc n) = 2 ^ 64 - 1 - n

abbrev to_usize : Option ℤ → Option ℕ
to_usize none = none
to_usize (some n) = some (as_usize n)

module _ (w : Winnow) where
  unfoldable pub sign : Parser Sign
  sign =
      w.alt (w.map (λ s. Sign.minus) (w.literal (codes "-")))
        (w.map (λ s. Sign.plus) (w.literal (codes "+")))

  unfoldable pub unsigned_int : Parser ℕ
  unsigned_int = w.try_map (λ s. to_usize (parse_isize s)) w.digit1

  unfoldable pub negative_int : Parser ℤ
  negative_int = w.try_map parse_isize (w.recognize (w.pair (w.literal (codes "-")) w.digit1))

  unfoldable pub plusative_int : Parser ℤ
  plusative_int = w.try_map parse_isize (w.recognize (w.pair (w.literal (codes "+")) w.digit1))

  unfoldable pub nonplussed_int : Parser ℤ
  nonplussed_int =
      w.try_map parse_isize (w.recognize (w.pair (w.opt (w.literal (codes "-"))) w.digit1))
