-- ===== src/Commands/Numbered.antt =====
-- The patches that the option `--number` of src/cmd/push.rs and src/cmd/pop.rs asks for.
use stgit.Prelude.{
  true, ℕ, zero, suc, ◌-◌, ◌<◌, min, ◌≡◌, refl, ap, ◌∙◌, arith, List, [], ◌∷◌, reverse, Option,
  none, some, ℤ, pos, negsuc, length, length-append, take,
}
use mathlib.Core.List.{reverse-append}
use stgit.Patch.Name.{PatchName}
use stgit.Commands.Pop.{is_zero}

-- Without a number the first name; for a positive one as many of the first names, as far as there
-- are so many; for a negative one all but as many of the last names, of which there are more.
abbrev pub IsNumbered : Option ℤ → List PatchName → List PatchName → Type 0
IsNumbered none xs pns = pns ≡ take 1 xs
IsNumbered (some (pos n)) xs pns = pns ≡ take n xs
IsNumbered (some (negsuc n)) xs pns = (suc n < length xs) × (pns ≡ take (length xs - suc n) xs)

-- `Some(0) == opt_number`
pub is_zero-eq : (number : Option ℤ) → is_zero number ≡ true → number ≡ some (pos 0)
is_zero-eq none h = cc
is_zero-eq (some (pos zero)) h = refl
is_zero-eq (some (pos (suc n))) h = cc
is_zero-eq (some (negsuc n)) h = cc

pub take-min : (n : ℕ) (xs : List PatchName) → take (min n (length xs)) xs ≡ take n xs
take-min zero xs =
    let none_taken : min zero (length xs) ≡ zero = omega arith in ap (λ k. take k xs) none_taken
take-min (suc n) [] =
    let none_left : min (suc n) 0 ≡ zero = omega arith in ap (λ k. take k []) none_left
take-min (suc n) (x ∷ xs) =
    let step : min (suc n) (length (x ∷ xs)) ≡ suc (min n (length xs)) = omega arith in
    ap (λ k. take k (x ∷ xs)) step ∙ ap (◌∷◌ x) (take-min n xs)

pub length-reverse : (xs : List PatchName) → length (reverse xs) ≡ length xs
length-reverse [] = refl
length-reverse (x ∷ xs) =
    ap length (reverse-append (x ∷ []) xs)
    ∙ omega (arith, length-append (reverse xs) (x ∷ []), length-reverse xs)
