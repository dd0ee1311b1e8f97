-- ===== src/Stack/Access.antt =====
-- src/stack/access.rs, with the iterators of src/stack/iter.rs and the groups and constraints of
-- src/patch/mod.rs and src/patch/constraint.rs.
use stgit.Prelude.{
  ℕ, Bool, List, [], ◌∷◌, ◌++◌, Option, none, some, position, contains, ◌==◌, if◌then◌else◌,
  text_Eq,
}
use stgit.Host.{Commit}
use stgit.Patch.Name.{PatchName, collides}

-- `struct PatchState { commit }`
pub record PatchState : Type 0 where
  pub commit : Commit

pub data LocationGroup : Type 0 where
  applied unapplied hidden : LocationGroup

pub data LocationConstraint : Type 0 where
  all visible applied unapplied hidden : LocationConstraint

-- The required methods of `trait StackStateAccess`. `none` is a panic.
pub record StackStateAccess (S : Type 0) : Type 0 where
  pub applied : S → List PatchName
  pub unapplied : S → List PatchName
  pub hidden : S → List PatchName
  pub get_patch : S → PatchName → Option PatchState
  pub has_patch : S → PatchName → Bool
  pub top : S → Option Commit
  pub head : S → Option Commit

-- `Iterator::find`
unfoldable pub find : (PatchName → Bool) → List PatchName → Option PatchName
find p [] = none
find p (x ∷ xs) = if p x then some x else find p xs

-- The provided methods.
module _ {S : Type 0} ⦃access : StackStateAccess S⦄ where
  abbrev pub all_patches : S → List PatchName
  all_patches s = access.applied s ++ (access.unapplied s ++ access.hidden s)

  abbrev pub applied_and_unapplied : S → List PatchName
  applied_and_unapplied s = access.applied s ++ access.unapplied s

  unfoldable pub colliding : S → PatchName → Option PatchName
  colliding s patchname = find (λ pn. collides patchname pn) (all_patches s)

  abbrev pub get_patch_commit : S → PatchName → Option Commit
  get_patch_commit s patchname = elim (access.get_patch s patchname) [
    | none ↦ none
    | some patch ↦ some patch.commit
  ]

  abbrev pub is_applied : S → PatchName → Bool
  is_applied s patchname = contains (access.applied s) patchname

  abbrev pub is_unapplied : S → PatchName → Bool
  is_unapplied s patchname = contains (access.unapplied s) patchname

  abbrev pub is_hidden : S → PatchName → Bool
  is_hidden s patchname = contains (access.hidden s) patchname

  -- `none` is a panic.
  unfoldable pub index_of : S → PatchName → Option ℕ
  index_of s patchname = position (λ pn. pn == patchname) (all_patches s)

  unfoldable pub location_group : S → PatchName → Option LocationGroup
  location_group s patchname =
      if contains (access.applied s) patchname
      then some LocationGroup.applied
      else if contains (access.unapplied s) patchname
      then some LocationGroup.unapplied
      else if contains (access.hidden s) patchname
      then some LocationGroup.hidden
      else none

  unfoldable pub get_allowed : S → LocationConstraint → List PatchName
  get_allowed s LocationConstraint.all = all_patches s
  get_allowed s LocationConstraint.visible = applied_and_unapplied s
  get_allowed s LocationConstraint.applied = access.applied s
  get_allowed s LocationConstraint.unapplied = access.unapplied s
  get_allowed s LocationConstraint.hidden = access.hidden s
