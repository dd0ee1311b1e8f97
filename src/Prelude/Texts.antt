-- ===== src/Prelude/Texts.antt =====
-- Rust's `str` and `String` as lists of code points.
use Prim.Native.Nat.{ℕ, ◌+◌}
use Prim.Native.Char.{code}
use Prim.Native.String.{String}
use mathlib.Core.Path.{◌≡◌, refl}
use mathlib.Core.Logic.{◌↔◌}
use mathlib.Core.Bool.{Bool, true, false, ◌&&◌}
use mathlib.Core.List.{List, [], ◌∷◌}
use native.Mathlib.Omega.{arith}
use stgit.Prelude.Tests.{Eq, nat_eq, leb, if◌then◌else◌}

abbrev pub Text : Type 0
Text = List ℕ

-- The code points of a literal.
abbrev pub codes : String → Text
codes String.[] = []
codes (String.◌∷◌ c s) = code c ∷ codes s

unfoldable pub text_eq : Text → Text → Bool
text_eq [] [] = true
text_eq (x ∷ xs) (y ∷ ys) = nat_eq x y && text_eq xs ys
text_eq _ _ = false

pub text_eq_iff : (a b : Text) → (text_eq a b ≡ true) ↔ (a ≡ b)
unfolding text_eq
text_eq_iff (x ∷ a) (y ∷ b) = ground (arith, text_eq_iff a b)
text_eq_iff _ _ = ground arith

instance abbrev pub text_Eq : Eq Text
text_Eq = record { eq = text_eq; eq_iff = text_eq_iff }

-- `to_ascii_lowercase` of one character.
unfoldable pub ascii_lower : ℕ → ℕ
ascii_lower c = if leb b'A' c && leb c b'Z' then c + 32 else c

-- `eq_ignore_ascii_case`.
unfoldable pub eq_ignore_ascii_case : Text → Text → Bool
unfolding ascii_lower
eq_ignore_ascii_case [] [] = true
eq_ignore_ascii_case (x ∷ xs) (y ∷ ys) =
    nat_eq (ascii_lower x) (ascii_lower y) && eq_ignore_ascii_case xs ys
eq_ignore_ascii_case _ _ = false

pub eq_ignore_ascii_case_refl : (a : Text) → eq_ignore_ascii_case a a ≡ true
unfolding eq_ignore_ascii_case
eq_ignore_ascii_case_refl [] = refl
eq_ignore_ascii_case_refl (x ∷ a) = ground (arith, eq_ignore_ascii_case_refl a)

pub eq_ignore_ascii_case_sym : (a b : Text) → eq_ignore_ascii_case a b ≡ eq_ignore_ascii_case b a
unfolding eq_ignore_ascii_case
eq_ignore_ascii_case_sym (x ∷ a) (y ∷ b) = ground (arith, eq_ignore_ascii_case_sym a b)
eq_ignore_ascii_case_sym [] [] = refl
eq_ignore_ascii_case_sym [] (y ∷ b) = refl
eq_ignore_ascii_case_sym (x ∷ a) [] = refl
