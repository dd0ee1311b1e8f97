-- ===== src/Patch/Locator/Moves.antt =====
-- Where offsets lead from a patch that is given by its name: src/patch/locator.rs.
use stgit.Prelude.{
  ℕ, zero, suc, ◌+◌, ◌-◌, ◌^◌, ◌<◌, ◌≤◌, true, Option, none, some, List, [], ◌∷◌, ◌≡◌, refl, ◌∙◌,
  arith, Bool-cases, inl, inr, Option-cases, is_some, length, get_elem?, position-lt, ◌==◌, ltb,
  leb, if◌then◌else◌, text_Eq, ℤ, pos, ◌+ℤ◌, negate, fits_isize, checked_isize,
}
use stgit.Patch.Name.{PatchName}
use stgit.Patch.Outcome.{ok, err, ◌>>=◌, bind-to}
use stgit.Patch.Spec.{PatchId, PatchOffsets, PatchOffsetAtom}
use stgit.Patch.Parse.Winnow.{IsWinnow}
use stgit.Patch.Parse.Offsets.{AreAtoms, format_atoms, patch_offset_atoms-format_atoms}
use stgit.Patch.Locator
use stgit.Patch.Locator.{Libraries, DisambiguatedId, or_one, moved, position_in, unwrap, ok_or}
use stgit.Patch.Locator.Resolve.{
  resolve_name, disambiguate, disambiguate_id, start_index, atoms, walk, patch_at, string_for_error,
}
use stgit.Stack.Access.{StackStateAccess, all_patches, index_of}

-- The position that offsets lead to, every one of them within the stack.
unfoldable pub position_after : ℕ → ℕ → List PatchOffsetAtom → Option ℕ
position_after count at [] = some at
position_after count at (PatchOffsetAtom.plus n ∷ more) =
    let next = position_after count (at + or_one n) more in
    if ltb (at + or_one n) count then next else none
position_after count at (PatchOffsetAtom.tilde n ∷ more) =
    let next = position_after count (at - or_one n) more in if leb (or_one n) at then next else none

position_after-lt :
    (count at : ℕ) (steps : List PatchOffsetAtom) (j : ℕ)
    → at < count
    → position_after count at steps ≡ some j
    → j < count
unfolding position_after
position_after-lt count at [] j h e = ground arith
position_after-lt count at (PatchOffsetAtom.plus n ∷ more) j h e =
    ground (arith, position_after-lt count (at + or_one n) more j)
position_after-lt count at (PatchOffsetAtom.tilde n ∷ more) j h e =
    ground (arith, position_after-lt count (at - or_one n) more j)

-- Where a step lands.
abbrev pub landing : ℕ → Option ℤ → Option ℕ
landing count none = none
landing count (some z) = position_in count z

landing-plus :
    (count at m : ℕ)
    → count ≤ 2 ^ 63
    → landing count (checked_isize (pos at +ℤ pos m))
      ≡ (if ltb (at + m) count then some (at + m) else none)
unfolding checked_isize fits_isize ◌+ℤ◌
landing-plus count at m h = ground arith

landing-minus :
    (count at m : ℕ)
    → at < count
    → count ≤ 2 ^ 63
    → landing count (checked_isize (pos at +ℤ negate (pos m)))
      ≡ (if leb m at then some (at - m) else none)
unfolding checked_isize fits_isize ◌+ℤ◌ negate
landing-minus count at zero h k = ground arith
landing-minus count at (suc m) h k = ground arith

get_elem?-some : (xs : List PatchName) (i : ℕ) → i < length xs → is_some (get_elem? xs i) ≡ true
get_elem?-some [] i h = absurd (omega arith)
get_elem?-some (x ∷ xs) zero h = refl
get_elem?-some (x ∷ xs) (suc i) h = get_elem?-some xs i (omega arith)

-- The patch that offsets lead to.
abbrev pub patch_after : List PatchName → ℕ → List PatchOffsetAtom → Option PatchName
patch_after xs at steps = elim (position_after (length xs) at steps) [
  | none ↦ none
  | some j ↦ get_elem? xs j
]

unwrap-ok_or :
    (E : Type 0) {A : Type 0} (e : E) (o : Option A) → is_some o ≡ true → unwrap o ≡ ok_or e o
unwrap-ok_or E e none h = cc
unwrap-ok_or E e (some a) h = refl

module _ (lib : Libraries) where
  pub walk-landing :
      (count : ℕ) (at : ℤ) (outside : Locator.Error lib.Prefix) (atom : PatchOffsetAtom)
      (more : List PatchOffsetAtom)
      → walk lib count outside at (atom ∷ more) ≡ elim (landing count (moved at atom)) [
        | none ↦ err outside
        | some i ↦ walk lib count outside (pos i) more
      ]
  unfolding walk
  walk-landing count at outside atom more = elim (Option-cases (moved at atom)) [
    | inl e ↦ rw (e, walk) refl
    | inr (z, e) ↦ rw (e, walk) refl
  ]

  walk-nil :
      (count at : ℕ) (outside : Locator.Error lib.Prefix)
      → walk lib count outside (pos at) [] ≡ ok (pos at)
  unfolding walk
  walk-nil count at outside = refl

  walk-position_after :
      (count at : ℕ) (outside : Locator.Error lib.Prefix) (steps : List PatchOffsetAtom)
      → at < count
      → count ≤ 2 ^ 63
      → walk lib count outside (pos at) steps
        ≡ elim (position_after count at steps) [ none ↦ err outside | some j ↦ ok (pos j) ]
  unfolding position_after moved
  walk-position_after count at outside [] h k = walk-nil count at outside
  walk-position_after count at outside (PatchOffsetAtom.plus n ∷ more) h k =
      walk-landing count (pos at) outside (PatchOffsetAtom.plus n) more
      ∙ elim (Bool-cases (ltb (at + or_one n) count)) [
        | inl y ↦
            rw (landing-plus count at (or_one n) k, y)
              (walk-position_after count (at + or_one n) outside more (ground arith) k)
        | inr f ↦ rw (landing-plus count at (or_one n) k, f) refl
      ]
  walk-position_after count at outside (PatchOffsetAtom.tilde n ∷ more) h k =
      walk-landing count (pos at) outside (PatchOffsetAtom.tilde n) more
      ∙ elim (Bool-cases (leb (or_one n) at)) [
        | inl y ↦
            rw (landing-minus count at (or_one n) h k, y)
              (walk-position_after count (at - or_one n) outside more (omega arith) k)
        | inr f ↦ rw (landing-minus count at (or_one n) h k, f) refl
      ]

module _ (lib : Libraries) {S : Type 0} ⦃access : StackStateAccess S⦄ (s : S) where
  -- The last two steps of the resolution.
  pub walk-patch_at :
      (at : ℕ) (outside : Locator.Error lib.Prefix) (steps : List PatchOffsetAtom)
      → at < length (all_patches s)
      → length (all_patches s) ≤ 2 ^ 63
      → (walk lib (length (all_patches s)) outside (pos at) steps >>= patch_at lib s)
        ≡ ok_or outside (patch_after (all_patches s) at steps)
  unfolding patch_at ◌>>=◌
  walk-patch_at at outside steps h k =
      elim (Option-cases (position_after (length (all_patches s)) at steps)) [
        | inl e ↦
            rw
              (
                walk-position_after lib (length (all_patches s)) at outside steps h k,
                patch_after,
                e,
              )
              refl
        | inr (j, e) ↦
            rw
              (
                walk-position_after lib (length (all_patches s)) at outside steps h k,
                patch_after,
                e,
              )
              (unwrap-ok_or _ outside (get_elem? (all_patches s) j) (
                get_elem?-some (all_patches s) j
                  (position_after-lt (length (all_patches s)) at steps j h e)))
      ]

  disambiguate-name :
      (pn : PatchName) (offsets : PatchOffsets)
      → access.has_patch s pn ≡ true
      → disambiguate_id lib s (PatchId.name pn) offsets
        ≡ ok (record { id = DisambiguatedId.name pn; offsets = offsets })
  unfolding disambiguate_id
  disambiguate-name pn offsets h = rw (h, disambiguate_id) refl

  start_index-name :
      (pn : PatchName) (offsets : PatchOffsets) (i : ℕ)
      → access.has_patch s pn ≡ true
      → index_of s pn ≡ some i
      → start_index lib s (DisambiguatedId.name pn) offsets ≡ ok (pos i)
  unfolding start_index ◌>>=◌
  start_index-name pn offsets i h k = rw (h, k) refl

  -- Where the parser combinators keep their documented equations, the stack has the named patch,
  -- `index_of` finds it at some position, the stack has at most 2^63 patches and the numbers of the
  -- offset atoms are less than 2^63, the name followed by the atoms in print resolves to the patch
  -- at the position that the atoms lead to from there, one after the other, or to
  -- `InvalidPatchOffset` where one of them leaves the stack.
  pub resolve_name-moves :
      IsWinnow lib.winnow
      → (pn : PatchName) (i : ℕ) (steps : List PatchOffsetAtom) → access.has_patch s pn ≡ true
      → index_of s pn ≡ some i
      → length (all_patches s) ≤ 2 ^ 63
      → AreAtoms steps
      → resolve_name lib s (record { id = PatchId.name pn; offsets = format_atoms steps })
        ≡ ok_or
            (Locator.Error.invalid_patch_offset
              (string_for_error lib (DisambiguatedId.name pn))
              (format_atoms steps))
            (patch_after (all_patches s) i steps)
  unfolding resolve_name disambiguate atoms index_of
  resolve_name-moves law pn i steps h k fits v =
      bind-to _ _ _ _ (disambiguate-name pn (format_atoms steps) h) (
        bind-to _ _ _ _ (start_index-name pn (format_atoms steps) i h k) (
          bind-to _ _ steps _
            (rw (patch_offset_atoms-format_atoms lib.winnow law steps v, atoms) refl)
            (walk-patch_at i _ steps (position-lt (λ x. x == pn) (all_patches s) i k) fits)))
