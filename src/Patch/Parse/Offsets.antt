-- ===== src/Patch/Parse/Offsets.antt =====
-- The offsets that `patch_offset_atoms` and `patch_offsets` of src/patch/parse/locator.rs read back
-- from the print of src/patch/offset.rs.
use stgit.Prelude.{
  Text, ℕ, ◌-◌, ◌^◌, ◌<◌, false, Option, none, some, List, [], ◌∷◌, ◌++◌, ◌≡◌, refl, ap, ◌∙◌, arith,
  length, length-append, take, format_usize, text_eq, nat_eq,
}
use stgit.Patch.Spec.{PatchOffsetAtom, PatchOffsets, format_atom}
use stgit.Patch.Parse.Parsed.{read, backtrack}
use stgit.Patch.Parse.Winnow.{Winnow, IsWinnow, is_digit, run, prepend, taken}
use stgit.Patch.Parse.Numbers.{unsigned_int}
use stgit.Patch.Parse.Numbers.RoundTrip.{unsigned_int-format_usize, unsigned_int-none}
use stgit.Patch.Parse.Locator.{
  patch_offset_atom_plus, patch_offset_atom_tilde, patch_offset_atom, patch_offset_atoms,
  patch_offsets,
}

-- The number of an atom fits `isize`.
abbrev pub IsAtom : PatchOffsetAtom → Type 0
IsAtom (PatchOffsetAtom.plus (some n)) = n < 2 ^ 63
IsAtom (PatchOffsetAtom.tilde (some n)) = n < 2 ^ 63
IsAtom _ = Unit {0}

abbrev pub AreAtoms : List PatchOffsetAtom → Type 0
AreAtoms [] = Unit {0}
AreAtoms (atom ∷ more) = IsAtom atom × AreAtoms more

-- Offsets as they are written.
unfoldable pub format_atoms : List PatchOffsetAtom → PatchOffsets
unfolding format_atom
format_atoms [] = []
format_atoms (atom ∷ more) = format_atom atom ++ format_atoms more

-- No offsets begin with a digit.
run-format_atoms : (atoms : List PatchOffsetAtom) → run is_digit (format_atoms atoms) ≡ 0
unfolding format_atoms run is_digit
run-format_atoms [] = refl
run-format_atoms (PatchOffsetAtom.plus none ∷ more) = refl
run-format_atoms (PatchOffsetAtom.plus (some n) ∷ more) = refl
run-format_atoms (PatchOffsetAtom.tilde none ∷ more) = refl
run-format_atoms (PatchOffsetAtom.tilde (some n) ∷ more) = refl

take-length : (s : Text) → take (length s) s ≡ s
take-length [] = refl
take-length (c ∷ s) = ap (◌∷◌ c) (take-length s)

take_all : (s : Text) → take (length s - 0) s ≡ s
take_all s = let e : length s - 0 ≡ length s = omega arith in ap (λ k. take k s) e ∙ take-length s

one_other : (c d : ℕ) → nat_eq d c ≡ false → text_eq (d ∷ []) (c ∷ []) ≡ false
unfolding text_eq
one_other c d h = rw (h, text_eq) refl

module _ (w : Winnow) (law : IsWinnow w) where
  -- A sign with an optional number behind it.
  signed-some :
      (c n : ℕ) (rest : Text) (f : Option ℕ → PatchOffsetAtom)
      → n < 2 ^ 63
      → run is_digit rest ≡ 0
      → w.map
          (λ p. f p.1)
          (w.pair (w.literal (c ∷ [])) (w.opt (unsigned_int w)))
          (c ∷ (format_usize n ++ rest))
        ≡ read (f (some n)) rest
  signed-some c n rest f h k =
      rw
        (
          law.map_lem _ _ _,
          law.pair_lem _ _ _,
          law.literal-here (c ∷ []) (format_usize n ++ rest),
          law.opt_lem _ _,
          unsigned_int-format_usize w law n rest h k,
        )
        refl

  signed-none :
      (c : ℕ) (rest : Text) (f : Option ℕ → PatchOffsetAtom)
      → run is_digit rest ≡ 0
      → w.map (λ p. f p.1) (w.pair (w.literal (c ∷ [])) (w.opt (unsigned_int w))) (c ∷ rest)
        ≡ read (f none) rest
  signed-none c rest f k =
      rw
        (
          law.map_lem _ _ _,
          law.pair_lem _ _ _,
          law.literal-here (c ∷ []) rest,
          law.opt_lem _ _,
          unsigned_int-none w law rest k,
        )
        refl

  -- Another character in place of the sign.
  signed-other :
      (c d : ℕ) (rest : Text) (f : Option ℕ → PatchOffsetAtom)
      → nat_eq d c ≡ false
      → w.map (λ p. f p.1) (w.pair (w.literal (c ∷ [])) (w.opt (unsigned_int w))) (d ∷ rest)
        ≡ backtrack
  signed-other c d rest f h =
      rw
        (
          law.map_lem _ _ _,
          law.pair_lem _ _ _,
          law.literal-other (c ∷ []) (d ∷ rest) (one_other c d h),
        )
        refl

  signed-nil :
      (c : ℕ) (f : Option ℕ → PatchOffsetAtom)
      → w.map (λ p. f p.1) (w.pair (w.literal (c ∷ [])) (w.opt (unsigned_int w))) [] ≡ backtrack
  unfolding text_eq
  signed-nil c f =
      rw (law.map_lem _ _ _, law.pair_lem _ _ _, law.literal-other (c ∷ []) [] refl) refl

  patch_offset_atom-format_atom :
      (atom : PatchOffsetAtom) (rest : Text)
      → IsAtom atom
      → run is_digit rest ≡ 0
      → patch_offset_atom w (format_atom atom ++ rest) ≡ read atom rest
  unfolding patch_offset_atom format_atom
  patch_offset_atom-format_atom (PatchOffsetAtom.plus none) rest h k =
      rw (law.alt_lem _ _ _, signed-none b'+' rest PatchOffsetAtom.plus k) refl
  patch_offset_atom-format_atom (PatchOffsetAtom.plus (some n)) rest h k =
      rw (law.alt_lem _ _ _, signed-some b'+' n rest PatchOffsetAtom.plus h k) refl
  patch_offset_atom-format_atom (PatchOffsetAtom.tilde none) rest h k =
      rw
        (
          law.alt_lem _ _ _,
          signed-other b'+' b'~' rest PatchOffsetAtom.plus refl,
          signed-none b'~' rest PatchOffsetAtom.tilde k,
        )
        refl
  patch_offset_atom-format_atom (PatchOffsetAtom.tilde (some n)) rest h k =
      rw
        (
          law.alt_lem _ _ _,
          signed-other b'+' b'~' (format_usize n ++ rest) PatchOffsetAtom.plus refl,
          signed-some b'~' n rest PatchOffsetAtom.tilde h k,
        )
        refl

  format_atom-longer :
      (atom : PatchOffsetAtom) (rest : Text) → length rest < length (format_atom atom ++ rest)
  unfolding format_atom
  format_atom-longer (PatchOffsetAtom.plus none) rest = omega arith
  format_atom-longer (PatchOffsetAtom.plus (some n)) rest =
      omega (arith, length-append {0} (format_usize n) rest)
  format_atom-longer (PatchOffsetAtom.tilde none) rest = omega arith
  format_atom-longer (PatchOffsetAtom.tilde (some n)) rest =
      omega (arith, length-append {0} (format_usize n) rest)

  patch_offset_atom-nil : patch_offset_atom w [] ≡ backtrack
  unfolding patch_offset_atom patch_offset_atom_plus patch_offset_atom_tilde
  patch_offset_atom-nil =
      rw
        (
          law.alt_lem _ _ _,
          signed-nil b'+' PatchOffsetAtom.plus,
          signed-nil b'~' PatchOffsetAtom.tilde,
        )
        refl

  -- Where the parser combinators keep their documented equations, offset atoms with numbers less
  -- than 2^63 are read back by `patch_offset_atoms` from their print.
  pub patch_offset_atoms-format_atoms :
      (atoms : List PatchOffsetAtom)
      → AreAtoms atoms
      → patch_offset_atoms w (format_atoms atoms) ≡ read atoms []
  unfolding patch_offset_atoms format_atoms
  patch_offset_atoms-format_atoms [] h = law.repeat-done _ _ patch_offset_atom-nil
  patch_offset_atoms-format_atoms (atom ∷ more) (h, hs) =
      law.repeat-more _ atom _ (format_atoms more)
        (patch_offset_atom-format_atom atom (format_atoms more) h (run-format_atoms more))
        (format_atom-longer atom (format_atoms more))
      ∙ ap (prepend atom) (patch_offset_atoms-format_atoms more hs)

  pub patch_offsets-format_atoms :
      (atoms : List PatchOffsetAtom)
      → AreAtoms atoms
      → patch_offsets w (format_atoms atoms) ≡ read (format_atoms atoms) []
  unfolding patch_offsets patch_offset_atoms
  patch_offsets-format_atoms atoms h =
      law.recognize_lem _ _
      ∙ ap (taken (format_atoms atoms)) (patch_offset_atoms-format_atoms atoms h)
      ∙ ap (λ t. read t []) (take_all (format_atoms atoms))
