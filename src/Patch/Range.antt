-- ===== src/Patch/Range.antt =====
-- src/patch/range.rs, with `constrain` of src/patch/name.rs. The resolution of locators stands in
-- Patch/Locator.
pub mod Contiguous
pub mod Selected
pub mod Slices
pub mod Agree
pub mod Panics
use stgit.Prelude.{
  Text, ℕ, zero, suc, ◌+◌, ◌-◌, Bool, true, false, not, ◌&&◌, ◌||◌, is_empty, Option, none, some,
  List, [], ◌∷◌, ◌++◌, length, take, drop, reverse, position, contains, ◌==◌, nat_eq, ltb, leb,
  text_Eq, if◌then◌else◌,
}
use stgit.Patch.Name.{PatchName}
use stgit.Patch.Outcome.{Outcome, ok, err, panic, ◌>>=◌, map_err}
use stgit.Patch.Spec.{
  PatchLocator, PatchRange, PatchRangeBounds, RangeConstraint, use_applied_boundary,
  location_constraint, format_range,
}
use stgit.Patch.Locator
use stgit.Patch.Locator.{Libraries, unwrap}
use stgit.Patch.Locator.Resolve.{resolve_name}
use stgit.Stack.Access.{
  StackStateAccess, LocationConstraint, LocationGroup, location_group, get_allowed,
}

pub data Error (Prefix : Type 0) : Type 0 where
  -- `super::name::Error::PatchNotAllowed`
  patch_not_allowed : PatchName → LocationGroup → Error Prefix
  locator : Locator.Error Prefix → Error Prefix
  duplicate : PatchName → Error Prefix
  not_contiguous : Text → Text → Error Prefix
  boundary_order : PatchName → PatchName → Error Prefix

abbrev pub Chosen : Libraries → Type 0 → Type 0
Chosen lib A = Outcome (Error lib.Prefix) A

-- The groups that a constraint takes.
unfoldable pub takes : LocationConstraint → LocationGroup → Bool
takes LocationConstraint.all _ = true
takes LocationConstraint.visible LocationGroup.applied = true
takes LocationConstraint.visible LocationGroup.unapplied = true
takes LocationConstraint.applied LocationGroup.applied = true
takes LocationConstraint.unapplied LocationGroup.unapplied = true
takes LocationConstraint.hidden LocationGroup.hidden = true
takes _ _ = false

-- `xs[begin..=end]`; `none` is a panic.
unfoldable pub slice : ℕ → ℕ → List PatchName → Option (List PatchName)
slice begin end xs =
    if ltb end (length xs) && leb begin (suc end)
    then some (take (suc end - begin) (drop begin xs))
    else none

module _ (lib : Libraries) where
  unfoldable pub check_group : PatchName → LocationConstraint → LocationGroup → Chosen lib PatchName
  unfolding takes
  check_group pn constraint group =
      if takes constraint group then ok pn else err (Error.patch_not_allowed pn group)

  unfoldable pub push_one : List PatchName → PatchName → Chosen lib (List PatchName)
  push_one patches pn =
      if contains patches pn then err (Error.duplicate pn) else ok (patches ++ pn ∷ [])

  -- `for pn in selected_patches`
  unfoldable pub push_all : List PatchName → List PatchName → Chosen lib (List PatchName)
  push_all patches [] = ok patches
  push_all patches (pn ∷ more) =
      if contains patches pn then err (Error.duplicate pn) else push_all (patches ++ pn ∷ []) more

module _ (lib : Libraries) {S : Type 0} ⦃access : StackStateAccess S⦄ (s : S) where
  unfoldable pub constrain : PatchName → LocationConstraint → Chosen lib PatchName
  unfolding check_group
  constrain pn constraint = do
    group ← unwrap (location_group s pn)
    check_group lib pn constraint group

  module _ (allow_range : RangeConstraint) where
    abbrev pub allowed_patches : List PatchName
    allowed_patches = get_allowed s (location_constraint allow_range)

    unfoldable pub resolve_bound : Option PatchLocator → Chosen lib (Option PatchName)
    unfolding constrain
    resolve_bound none = ok none
    resolve_bound (some loc) = do
      resolved ← map_err Error.locator (resolve_name lib s loc)
      pn ← constrain resolved (location_constraint allow_range)
      ok (some pn)

    -- `expect` of a position.
    unfoldable pub allowed_position : PatchName → Chosen lib ℕ
    allowed_position pn = unwrap (position (λ x. x == pn) allowed_patches)

    unfoldable pub begin_position : Option PatchName → Chosen lib ℕ
    unfolding allowed_position
    begin_position none = ok 0
    begin_position (some pn) = allowed_position pn

    -- The end of a range that is open there; with `none` the range is skipped.
    unfoldable pub open_end : ℕ → Option ℕ
    open_end begin_pos =
        if use_applied_boundary allow_range
          && (not (is_empty (access.applied s)) && ltb begin_pos (length (access.applied s)))
        then some (length (access.applied s) - 1)
        else if not (is_empty allowed_patches)
        then some (length allowed_patches - 1)
        else none

    unfoldable pub selected : ℕ → ℕ → Option (List PatchName)
    unfolding slice
    selected begin_pos end_pos =
        if leb begin_pos end_pos
        then slice begin_pos end_pos allowed_patches
        else elim (slice end_pos begin_pos allowed_patches) [
          | none ↦ none
          | some xs ↦ some (reverse xs)
        ]

    unfoldable pub push_selected : List PatchName → ℕ → ℕ → Chosen lib (List PatchName)
    unfolding push_all selected
    push_selected patches begin_pos end_pos = do
      names ← unwrap (selected begin_pos end_pos)
      push_all lib patches names

    unfoldable pub push_range : List PatchName → ℕ → Option PatchName → Chosen lib (List PatchName)
    unfolding push_selected allowed_position open_end
    push_range patches begin_pos (some pn) = do
      end_pos ← allowed_position pn
      push_selected patches begin_pos end_pos
    push_range patches begin_pos none = elim (open_end begin_pos) [
      | none ↦ ok patches
      | some end_pos ↦ push_selected patches begin_pos end_pos
    ]

    -- One round of the loop of `resolve_names`.
    unfoldable pub resolve_round : List PatchName → PatchRange → Chosen lib (List PatchName)
    unfolding resolve_bound begin_position push_range constrain push_one
    resolve_round patches (PatchRange.range bounds) = do
      begin ← resolve_bound bounds.begin
      end ← resolve_bound bounds.end
      begin_pos ← begin_position begin
      push_range patches begin_pos end
    resolve_round patches (PatchRange.single loc) = do
      resolved ← map_err Error.locator (resolve_name lib s loc)
      pn ← constrain resolved (location_constraint allow_range)
      push_one lib patches pn

    unfoldable pub resolve_loop : List PatchName → List PatchRange → Chosen lib (List PatchName)
    unfolding resolve_round
    resolve_loop patches [] = ok patches
    resolve_loop patches (item ∷ more) = do
      next ← resolve_round patches item
      resolve_loop next more

    unfoldable pub resolve_names : List PatchRange → Chosen lib (List PatchName)
    unfolding resolve_loop
    resolve_names ranges = resolve_loop [] ranges
