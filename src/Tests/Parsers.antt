-- ===== src/Tests/Parsers.antt =====
-- Parser combinators that keep the documented equations, and names and offsets that they read.
use stgit.Prelude.{
  Text, ℕ, zero, suc, ◌<◌, ◌≤◌, true, false, none, some, List, [], ◌∷◌, ◌++◌, ◌≡◌, refl, ap, arith,
  Bool-cases, inl, inr, length, take, drop, codes, format_digits, ltb, text_eq, text_eq_iff,
  if◌then◌else◌,
}
use stgit.Patch.Name.Validate.{
  validate, is_ascii_whitespace, is_control, is_special, next_is, ends_with,
}
use stgit.Patch.Spec.{PatchOffsetAtom}
use stgit.Patch.Parse.Parsed.{Parsed, read, backtrack, cut}
use stgit.Patch.Parse.Winnow.{
  Parser, Winnow, IsWinnow, or_else, optional, taken, prepend, mapped, try_mapped, then_parse,
  is_digit, is_hex_digit, run1,
}
use stgit.Patch.Parse.Name.{patch_name, is_stop}
use stgit.Patch.Parse.Name.Valid.{patch_name-IsValid}
use stgit.Patch.Parse.Name.RoundTrip.{patch_name-read, stops}
use stgit.Patch.Parse.Locator.{patch_offset_atoms}
use stgit.Patch.Parse.Offsets.{format_atoms, patch_offset_atoms-format_atoms}

-- What follows an item of a repetition, or its end.
abbrev repeat_step : {A : Type 0} → Text → (A → Text → Parsed (List A)) → Parsed A → Parsed (List A)
repeat_step s next (read a rest) =
    if ltb (length rest) (length s) then prepend a (next a rest) else cut
repeat_step s next backtrack = read [] s
repeat_step s next cut = cut

repeat_fuel : {A : Type 0} → ℕ → Parser A → Parser (List A)
repeat_fuel zero p s = repeat_step s (λ a rest. cut) (p s)
repeat_fuel (suc fuel) p s = repeat_step s (λ a rest. repeat_fuel fuel p rest) (p s)

text_starts : Text → Text → Parsed Text
text_starts t s = if text_eq (take (length t) s) t then read t (drop (length t) s) else backtrack

abbrev pub plain_winnow : Winnow
unfolding repeat_fuel text_starts
plain_winnow = record {
  alt = λ p q s. or_else (p s) (q s);
  opt = λ p s. optional s (p s);
  pair = λ p q s. then_parse q (p s);
  map = λ f p s. mapped f (p s);
  try_map = λ f p s. try_mapped f (p s);
  recognize = λ p s. taken s (p s);
  repeat = λ p s. repeat_fuel (length s) p s;
  literal = text_starts;
  digit1 = run1 is_digit;
  hex_digit1 = run1 is_hex_digit;
}

take-append : (t s : Text) → take (length t) (t ++ s) ≡ t
take-append [] s = refl
take-append (c ∷ t) s = ap (◌∷◌ c) (take-append t s)

drop-append : (t s : Text) → drop (length t) (t ++ s) ≡ s
drop-append [] s = refl
drop-append (c ∷ t) s = drop-append t s

text_starts-here : (t s : Text) → text_starts t (t ++ s) ≡ read t s
unfolding text_starts
text_starts-here t s = rw (take-append t s, drop-append t s, (text_eq_iff t t).1 refl) refl

text_starts-other :
    (t s : Text) → text_eq (take (length t) s) t ≡ false → text_starts t s ≡ backtrack
unfolding text_starts
text_starts-other t s h = rw (h, text_starts) refl

repeat_step-same :
    {A : Type 0} (s : Text) (next other : A → Text → Parsed (List A))
    → ((a : A) (rest : Text) → length rest < length s → next a rest ≡ other a rest)
    → (r : Parsed A) → repeat_step s next r ≡ repeat_step s other r
repeat_step-same s next other h (read a rest) = elim (Bool-cases (ltb (length rest) (length s))) [
  | inl y ↦ rw y (ap (prepend a) (h a rest (ground arith)))
  | inr n ↦ rw n refl
]
repeat_step-same s next other h backtrack = refl
repeat_step-same s next other h cut = refl

-- More fuel than characters changes nothing.
repeat_fuel-enough :
    {A : Type 0} (p : Parser A) (f g : ℕ) (s : Text)
    → length s ≤ f
    → length s ≤ g
    → repeat_fuel f p s ≡ repeat_fuel g p s
unfolding repeat_fuel
repeat_fuel-enough p zero zero s h k = refl
repeat_fuel-enough p zero (suc g) s h k =
    repeat_step-same s (λ a rest. cut) (λ a rest. repeat_fuel g p rest)
      (λ a rest l. absurd (omega (arith, l, h))) (p s)
repeat_fuel-enough p (suc f) zero s h k =
    repeat_step-same s (λ a rest. repeat_fuel f p rest) (λ a rest. cut)
      (λ a rest l. absurd (omega (arith, l, k))) (p s)
repeat_fuel-enough p (suc f) (suc g) s h k =
    repeat_step-same s (λ a rest. repeat_fuel f p rest) (λ a rest. repeat_fuel g p rest)
      (λ a rest l. repeat_fuel-enough p f g rest (omega (arith, l, h)) (omega (arith, l, k))) (p s)

repeat_fuel-more :
    {A : Type 0} (p : Parser A) (a : A) (s rest : Text)
    → p s ≡ read a rest
    → length rest < length s
    → repeat_fuel (length s) p s ≡ prepend a (repeat_fuel (length rest) p rest)
unfolding repeat_fuel
repeat_fuel-more p a [] rest h k = absurd (omega (arith, k))
repeat_fuel-more p a (c ∷ s) rest h k =
    let y : ltb (length rest) (length (c ∷ s)) ≡ true = ground arith in
    rw (h, y)
      (ap (prepend a)
        (repeat_fuel-enough p (length s) (length rest) rest (omega (arith, k)) (omega arith)))

repeat_fuel-done :
    {A : Type 0} (p : Parser A) (s : Text)
    → p s ≡ backtrack
    → repeat_fuel (length s) p s ≡ read [] s
unfolding repeat_fuel
repeat_fuel-done p [] h = rw h refl
repeat_fuel-done p (c ∷ s) h = rw h refl

pub plain_law : IsWinnow plain_winnow
unfolding plain_winnow
plain_law = record {
  alt_lem = λ p q s. refl;
  opt_lem = λ p s. refl;
  pair_lem = λ p q s. refl;
  map_lem = λ f p s. refl;
  try_map_lem = λ f p s. refl;
  recognize_lem = λ p s. refl;
  repeat-done = repeat_fuel-done;
  repeat-more = repeat_fuel-more;
  literal-here = text_starts-here;
  literal-other = text_starts-other;
  digit1_lem = λ s. refl;
  hex_digit1_lem = λ s. refl;
}

fix_read : patch_name (codes "fix~2") ≡ read (codes "fix") (codes "~2")
unfolding patch_name is_control is_ascii_whitespace next_is ends_with text_eq
fix_read = refl

patch_name-IsValid_example : validate (codes "fix") ≡ none
patch_name-IsValid_example = patch_name-IsValid (codes "fix~2") (codes "fix") (codes "~2") fix_read

fix_accepted : validate (codes "fix") ≡ none
unfolding validate text_eq is_ascii_whitespace is_control is_special
fix_accepted = refl

patch_name-read_example : patch_name (codes "fix" ++ codes "~2") ≡ read (codes "fix") (codes "~2")
unfolding stops is_stop
patch_name-read_example = patch_name-read (codes "fix") (codes "~2") fix_accepted refl

abbrev two_steps : List PatchOffsetAtom
two_steps = PatchOffsetAtom.tilde (some 12) ∷ PatchOffsetAtom.plus none ∷ []

steps_written : format_atoms two_steps ≡ codes "~12+"
unfolding format_atoms format_digits
steps_written = refl

patch_offset_atoms-format_atoms_example :
    patch_offset_atoms plain_winnow (format_atoms two_steps) ≡ read two_steps []
patch_offset_atoms-format_atoms_example =
    patch_offset_atoms-format_atoms plain_winnow plain_law two_steps (omega arith, (tt, tt))
