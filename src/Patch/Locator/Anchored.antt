-- ===== src/Patch/Locator/Anchored.antt =====
-- Where locators lead that start from the top, the base or the last patch: src/patch/locator.rs.
pub mod Starts
pub mod Resolves
use stgit.Prelude.{
  ℕ, zero, suc, ◌+◌, ◌-◌, ◌^◌, ◌<◌, ◌≤◌, Bool, true, false, Option, none, some, List, [], ◌∷◌, ◌++◌,
  ◌≡◌, refl, sym, ap, ◌∙◌, arith, Bool-cases, inl, inr, is_empty, length, length-append, ltb,
  if◌then◌else◌, ℤ, pos, negsuc, ◌+ℤ◌, negate, fits_isize, checked_isize, as_isize,
}
use stgit.Patch.Name.{PatchName}
use stgit.Patch.Outcome.{Outcome, ok, err, map_err, ◌>>=◌, bind-to, bind-err}
use stgit.Patch.Spec.{PatchId, PatchOffsets, PatchOffsetAtom, format_atom}
use stgit.Patch.Parse.Winnow.{IsWinnow}
use stgit.Patch.Parse.Offsets.{AreAtoms, format_atoms, patch_offset_atoms-format_atoms}
use stgit.Patch.Locator
use stgit.Patch.Locator.{
  Libraries, DisambiguatedId, or_one, moved, position_in, unwrap, ok_or, neg, add,
}
use stgit.Patch.Locator.Resolve.{
  resolve_name, disambiguate, disambiguate_id, start_index, atoms, walk, patch_at, string_for_error,
  within, below_top_id, below_last_id,
}
use stgit.Patch.Locator.Moves.{landing, walk-landing, patch_after, walk-patch_at}
use stgit.Stack.Access.{StackStateAccess, all_patches, applied_and_unapplied}

-- From the base a first step up is needed; one step up is the first patch.
abbrev pub from_base : List PatchName → List PatchOffsetAtom → Option PatchName
from_base xs (PatchOffsetAtom.plus none ∷ more) =
    if ltb 0 (length xs) then patch_after xs 0 more else none
from_base xs (PatchOffsetAtom.plus (some (suc k)) ∷ more) =
    if ltb k (length xs) then patch_after xs k more else none
from_base xs _ = none

-- From the patch that is `below` the last of the first `count` patches, if it is there.
abbrev pub from_below : List PatchName → ℕ → ℕ → List PatchOffsetAtom → Option PatchName
from_below xs count below steps =
    if ltb below count then patch_after xs (count - below - 1) steps else none

module _ {S : Type 0} ⦃access : StackStateAccess S⦄ where
  -- The patch of a locator: the top is the last applied patch, or the base where none is applied.
  abbrev pub anchored : S → PatchId → List PatchOffsetAtom → Option PatchName
  anchored s PatchId.base steps = from_base (all_patches s) steps
  anchored s PatchId.top steps =
      if is_empty (access.applied s)
      then from_base (all_patches s) steps
      else from_below (all_patches s) (length (access.applied s)) 0 steps
  anchored s (PatchId.below_top n) steps =
      from_below (all_patches s) (length (access.applied s)) (or_one n) steps
  anchored s (PatchId.below_last none) steps =
      from_below (all_patches s) (length (applied_and_unapplied s)) 0 steps
  anchored s (PatchId.below_last (some (pos n))) steps =
      from_below (all_patches s) (length (applied_and_unapplied s)) n steps
  anchored s (PatchId.below_last (some (negsuc n))) steps = none
  anchored s (PatchId.name pn) steps = none

  -- The locator starts from no name, its number fits an `isize`, and for the last patch some patch
  -- is not hidden.
  abbrev pub IsAnchor : S → PatchId → Type 0
  IsAnchor s PatchId.base = Unit {0}
  IsAnchor s PatchId.top = Unit {0}
  IsAnchor s (PatchId.below_top n) = or_one n < 2 ^ 63
  IsAnchor s (PatchId.below_last none) = 0 < length (applied_and_unapplied s)
  IsAnchor s (PatchId.below_last (some (pos n))) =
      (n < 2 ^ 63) × (0 < length (applied_and_unapplied s))
  IsAnchor s (PatchId.below_last (some (negsuc n))) = ⊥
  IsAnchor s (PatchId.name pn) = ⊥

-- The error is not told.
abbrev pub untold : {E A : Type 0} → Outcome E A → Outcome (Unit {0}) A
untold m = map_err (λ e. tt) m

pub untold-ok_or : {E A : Type 0} (e : E) (o : Option A) → untold (ok_or e o) ≡ ok_or tt o
untold-ok_or e none = refl
untold-ok_or e (some a) = refl

landing-from_base :
    (count m : ℕ)
    → count ≤ 2 ^ 63
    → landing count (checked_isize (negsuc 0 +ℤ pos (suc m)))
      ≡ (if ltb m count then some m else none)
unfolding checked_isize fits_isize ◌+ℤ◌
landing-from_base count m h = ground arith

landing-base_zero : (count : ℕ) → landing count (checked_isize (negsuc 0 +ℤ pos 0)) ≡ none
unfolding checked_isize fits_isize ◌+ℤ◌
landing-base_zero count = ground arith

landing-base_down :
    (count m : ℕ) → landing count (checked_isize (negsuc 0 +ℤ negate (pos m))) ≡ none
unfolding checked_isize fits_isize ◌+ℤ◌ negate
landing-base_down count zero = ground arith
landing-base_down count (suc m) = ground arith

if_landed : (b : Bool) (k : ℕ) → b ≡ true → (if b then some k else none) ≡ some k
if_landed true k h = refl
if_landed false k h = cc

if_outside : (b : Bool) (k : ℕ) → b ≡ false → (if b then some k else none) ≡ none
if_outside true k h = cc
if_outside false k h = refl

-- Positions below the last of some patches.
pub position-below :
    (count some_count below : ℕ)
    → some_count ≤ count
    → 0 < some_count
    → position_in count (pos (some_count - 1) +ℤ negate (pos below))
      ≡ (if ltb below some_count then some (some_count - below - 1) else none)
unfolding ◌+ℤ◌ negate
position-below count some_count zero h k = ground arith
position-below count some_count (suc below) h k = ground arith

pub neg-small : (n : ℕ) → n < 2 ^ 63 → neg (pos n) ≡ some (negate (pos n))
unfolding neg checked_isize fits_isize negate
neg-small zero h = ground arith
neg-small (suc n) h = ground arith

pub as_isize-small : (n : ℕ) → n < 2 ^ 63 → as_isize n ≡ pos n
unfolding as_isize
as_isize-small n h = ground arith

pub format_atoms-cons :
    (atom : PatchOffsetAtom) (more : List PatchOffsetAtom)
    → is_empty (format_atoms (atom ∷ more)) ≡ false
unfolding format_atoms format_atom
format_atoms-cons (PatchOffsetAtom.plus none) more = refl
format_atoms-cons (PatchOffsetAtom.plus (some n)) more = refl
format_atoms-cons (PatchOffsetAtom.tilde none) more = refl
format_atoms-cons (PatchOffsetAtom.tilde (some n)) more = refl

module _ (lib : Libraries) {S : Type 0} ⦃access : StackStateAccess S⦄ (s : S) where
  -- A first step from the base.
  walk-step :
      (outside : Locator.Error lib.Prefix) (atom : PatchOffsetAtom) (more : List PatchOffsetAtom)
      (k : ℕ)
      → length (all_patches s) ≤ 2 ^ 63
      → landing (length (all_patches s)) (moved (negsuc 0) atom)
        ≡ (if ltb k (length (all_patches s)) then some k else none)
      → untold
          (walk lib (length (all_patches s)) outside (negsuc 0) (atom ∷ more) >>= patch_at lib s)
        ≡ ok_or tt
            (if ltb k (length (all_patches s)) then patch_after (all_patches s) k more else none)
  unfolding ◌>>=◌
  walk-step outside atom more k fits e =
      let count = length (all_patches s) in
      elim (Bool-cases (ltb k count)) [
        | inl y ↦
            rw (walk-landing lib count (negsuc 0) outside atom more, e, y)
              (ap untold (walk-patch_at lib s k outside more (ground (arith, y)) fits)
                ∙ untold-ok_or outside (patch_after (all_patches s) k more))
        | inr n ↦ rw (walk-landing lib count (negsuc 0) outside atom more, e, n) refl
      ]

  walk-nowhere :
      (outside : Locator.Error lib.Prefix) (atom : PatchOffsetAtom) (more : List PatchOffsetAtom)
      → landing (length (all_patches s)) (moved (negsuc 0) atom) ≡ none
      → untold
          (walk lib (length (all_patches s)) outside (negsuc 0) (atom ∷ more) >>= patch_at lib s)
        ≡ err tt
  unfolding ◌>>=◌
  walk-nowhere outside atom more e =
      rw (walk-landing lib (length (all_patches s)) (negsuc 0) outside atom more, e) refl

  pub walk-from_base :
      (outside : Locator.Error lib.Prefix) (atom : PatchOffsetAtom) (more : List PatchOffsetAtom)
      → length (all_patches s) ≤ 2 ^ 63
      → untold
          (walk lib (length (all_patches s)) outside (negsuc 0) (atom ∷ more) >>= patch_at lib s)
        ≡ ok_or tt (from_base (all_patches s) (atom ∷ more))
  unfolding moved
  walk-from_base outside (PatchOffsetAtom.plus none) more fits =
      walk-step outside (PatchOffsetAtom.plus none) more 0 fits (landing-from_base _ 0 fits)
  walk-from_base outside (PatchOffsetAtom.plus (some zero)) more fits =
      walk-nowhere outside (PatchOffsetAtom.plus (some zero)) more (landing-base_zero _)
  walk-from_base outside (PatchOffsetAtom.plus (some (suc k))) more fits =
      walk-step outside (PatchOffsetAtom.plus (some (suc k))) more k fits
        (landing-from_base _ k fits)
  walk-from_base outside (PatchOffsetAtom.tilde n) more fits =
      walk-nowhere outside (PatchOffsetAtom.tilde n) more (landing-base_down _ (or_one n))
