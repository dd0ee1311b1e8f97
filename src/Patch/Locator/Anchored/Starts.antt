-- ===== src/Patch/Locator/Anchored/Starts.antt =====
-- Where the resolution of a locator starts, in `start_index` of src/patch/locator.rs.
use stgit.Prelude.{
  ℕ, zero, suc, ◌-◌, ◌^◌, ◌<◌, ◌≤◌, true, false, Option, none, some, List, [], ◌∷◌, ◌++◌, ◌≡◌, refl,
  ap, arith, is_empty, length, length-append, pos, negsuc, ◌+ℤ◌, negate, fits_isize, checked_isize,
}
use stgit.Patch.Name.{PatchName}
use stgit.Patch.Outcome.{panic, ok, err, ◌>>=◌}
use stgit.Patch.Spec.{PatchId, PatchOffsets}
use stgit.Patch.Locator
use stgit.Patch.Locator.{
  Libraries, DisambiguatedId, or_one, moved, position_in, unwrap, ok_or, neg, add,
}
use stgit.Patch.Locator.Resolve.{
  disambiguate, disambiguate_id, start_index, string_for_error, within, below_top_id, below_last_id,
}
use stgit.Stack.Access.{StackStateAccess, all_patches, applied_and_unapplied}
use stgit.Patch.Locator.{DisambiguatedLocator}
use stgit.Patch.Locator.Anchored.{neg-small, as_isize-small}

pub nonempty-length : (xs : List PatchName) → is_empty xs ≡ false → 0 < length xs
nonempty-length [] h = cc
nonempty-length (x ∷ xs) h = omega arith

pub empty-length : (xs : List PatchName) → is_empty xs ≡ true → length xs ≡ 0
empty-length [] h = refl
empty-length (x ∷ xs) h = cc

pub length-nonempty : (xs : List PatchName) → 0 < length xs → is_empty xs ≡ false
length-nonempty [] h = absurd (omega (arith, h))
length-nonempty (x ∷ xs) h = refl

pub last_applied : (n : ℕ) → 0 < n → pos n +ℤ negsuc 0 ≡ pos (n - 0 - 1)
unfolding ◌+ℤ◌
last_applied n h = ground arith

pub from_top-add :
    (n m : ℕ)
    → 0 < n
    → n < 2 ^ 63
    → m < 2 ^ 63
    → add (pos n +ℤ negsuc 0) (negate (pos m)) ≡ some (pos (n - 1) +ℤ negate (pos m))
unfolding add checked_isize fits_isize ◌+ℤ◌ negate
from_top-add n zero h k l = ground arith
from_top-add n (suc m) h k l = ground arith

pub from_top-add_base :
    (m : ℕ) → m < 2 ^ 63 → add (pos 0 +ℤ negsuc 0) (negate (pos m)) ≡ some (negsuc m)
unfolding add checked_isize fits_isize ◌+ℤ◌ negate
from_top-add_base zero h = ground arith
from_top-add_base (suc m) h = ground arith

module _ (lib : Libraries) {S : Type 0} ⦃access : StackStateAccess S⦄ (s : S) where
  pub applied-fits : length (access.applied s) ≤ length (all_patches s)
  applied-fits =
      omega (arith, length-append (access.applied s) (access.unapplied s ++ access.hidden s))

  pub visible-fits : length (applied_and_unapplied s) ≤ length (all_patches s)
  visible-fits = omega (
    arith,
    length-append (access.applied s) (access.unapplied s),
    length-append (access.applied s) (access.unapplied s ++ access.hidden s),
    length-append (access.unapplied s) (access.hidden s),
  )

  -- A number from the top.
  pub from_top-start :
      (m : ℕ) (offsets : PatchOffsets)
      → 0 < length (access.applied s)
      → length (access.applied s) < 2 ^ 63
      → m < 2 ^ 63
      → start_index lib s (DisambiguatedId.from_top (negate (pos m))) offsets
        ≡ within lib s
            (DisambiguatedId.from_top (negate (pos m)))
            (pos (length (access.applied s) - 1) +ℤ negate (pos m))
  unfolding start_index ◌>>=◌
  from_top-start m offsets h k l = rw (from_top-add (length (access.applied s)) m h k l) refl

  pub from_top-start_base :
      (m : ℕ) (offsets : PatchOffsets)
      → length (access.applied s) ≡ 0
      → m < 2 ^ 63
      → start_index lib s (DisambiguatedId.from_top (negate (pos m))) offsets
        ≡ err (
            Locator.Error.invalid_offset_from
              (string_for_error lib (DisambiguatedId.from_top (negate (pos m)))))
  unfolding start_index within ◌>>=◌
  from_top-start_base m offsets h l = rw (h, from_top-add_base m l) refl

  -- A number from the last patch.
  pub from_last-start :
      (m : ℕ) (offsets : PatchOffsets)
      → 0 < length (applied_and_unapplied s)
      → start_index lib s (DisambiguatedId.from_last (negate (pos m))) offsets
        ≡ within lib s
            (DisambiguatedId.from_last (negate (pos m)))
            (pos (length (applied_and_unapplied s) - 1) +ℤ negate (pos m))
  unfolding start_index
  from_last-start m offsets h =
      let there : length (applied_and_unapplied s) ≡ suc (length (applied_and_unapplied s) - 1) =
        omega (arith, h) in
      let some_patch = length-nonempty (all_patches s) (omega (arith, h, visible-fits)) in
      rw (some_patch, start_index) (on (length (applied_and_unapplied s)) m h)
    where
      on :
          (n m : ℕ)
          → 0 < n
          → (elim n [
            | zero ↦ panic
            | suc last ↦
                within lib s
                  (DisambiguatedId.from_last (negate (pos m)))
                  (pos last +ℤ negate (pos m))
          ])
            ≡ within lib s
                (DisambiguatedId.from_last (negate (pos m)))
                (pos (n - 1) +ℤ negate (pos m))
      on zero m h = absurd (omega (arith, h))
      on (suc n) m h =
          let e : n ≡ suc n - 1 = omega arith in
          ap
            (λ k.
              within lib s (DisambiguatedId.from_last (negate (pos m))) (pos k +ℤ negate (pos m)))
            e

  pub below_top-known :
      (n : Option ℕ) (offsets : PatchOffsets)
      → or_one n < 2 ^ 63
      → disambiguate lib s (record { id = PatchId.below_top n; offsets = offsets })
        ≡ ok (record { id = DisambiguatedId.from_top (negate (pos (or_one n))); offsets = offsets })
  unfolding disambiguate disambiguate_id below_top_id ◌>>=◌ negate
  below_top-known none offsets h = refl
  below_top-known (some n) offsets h = rw (as_isize-small n h, neg-small n h) refl

  pub below_last-known :
      (n : ℕ) (offsets : PatchOffsets)
      → n < 2 ^ 63
      → disambiguate lib s (record { id = PatchId.below_last (some (pos n)); offsets = offsets })
        ≡ ok (record { id = DisambiguatedId.from_last (negate (pos n)); offsets = offsets })
  unfolding disambiguate disambiguate_id below_last_id ◌>>=◌
  below_last-known n offsets h = rw (neg-small n h) refl

  pub last-known :
      (offsets : PatchOffsets)
      → disambiguate lib s (record { id = PatchId.below_last none; offsets = offsets })
        ≡ ok (record { id = DisambiguatedId.from_last (negate (pos 0)); offsets = offsets })
  unfolding disambiguate disambiguate_id below_last_id ◌>>=◌ negate
  last-known offsets = refl

  pub top-known :
      (offsets : PatchOffsets)
      → is_empty (access.applied s) ≡ false
      → disambiguate lib s (record { id = PatchId.top; offsets = offsets })
        ≡ ok (record { id = DisambiguatedId.top; offsets = offsets })
  unfolding disambiguate disambiguate_id
  top-known offsets h = rw (h, disambiguate_id) refl

  pub top-known_base :
      (offsets : PatchOffsets)
      → is_empty (access.applied s) ≡ true
      → disambiguate lib s (record { id = PatchId.top; offsets = offsets })
        ≡ ok (record { id = DisambiguatedId.base; offsets = offsets })
  unfolding disambiguate disambiguate_id
  top-known_base offsets h = rw (h, disambiguate_id) refl

  pub top-start :
      (offsets : PatchOffsets)
      → 0 < length (access.applied s)
      → start_index lib s DisambiguatedId.top offsets ≡ ok (pos (length (access.applied s) - 0 - 1))
  unfolding start_index
  top-start offsets h = ap ok (last_applied (length (access.applied s)) h)
