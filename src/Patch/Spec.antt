-- ===== src/Patch/Spec.antt =====
-- How a user names patches: the types of src/patch/mod.rs, with the text that src/patch/range.rs,
-- src/patch/locator.rs, src/patch/identifier.rs and src/patch/offset.rs print for them.
use stgit.Prelude.{
  Text, ℕ, Bool, true, false, Option, none, some, [], ◌∷◌, ◌++◌, codes, ℤ, format_usize,
  format_isize,
}
use stgit.Patch.Name.{PatchName}
use stgit.Stack.Access.{LocationConstraint}

-- `struct PatchOffsets(String)`
abbrev pub PatchOffsets : Type 0
PatchOffsets = Text

pub data PatchOffsetAtom : Type 0 where
  plus tilde : Option ℕ → PatchOffsetAtom

pub data PatchId : Type 0 where
  name : PatchName → PatchId
  base top : PatchId
  below_last : Option ℤ → PatchId
  below_top : Option ℕ → PatchId

pub record PatchLocator : Type 0 where
  pub id : PatchId
  pub offsets : PatchOffsets

pub record PatchRangeBounds : Type 0 where
  pub begin : Option PatchLocator
  pub end : Option PatchLocator

pub data PatchRange : Type 0 where
  single : PatchLocator → PatchRange
  range : PatchRangeBounds → PatchRange

pub data RangeConstraint : Type 0 where
  all all_with_applied_boundary visible visible_with_applied_boundary : RangeConstraint
  applied unapplied hidden : RangeConstraint

unfoldable pub use_applied_boundary : RangeConstraint → Bool
use_applied_boundary RangeConstraint.all_with_applied_boundary = true
use_applied_boundary RangeConstraint.visible_with_applied_boundary = true
use_applied_boundary _ = false

-- `From<RangeConstraint> for LocationConstraint`
unfoldable pub location_constraint : RangeConstraint → LocationConstraint
location_constraint RangeConstraint.all = LocationConstraint.all
location_constraint RangeConstraint.all_with_applied_boundary = LocationConstraint.all
location_constraint RangeConstraint.visible = LocationConstraint.visible
location_constraint RangeConstraint.visible_with_applied_boundary = LocationConstraint.visible
location_constraint RangeConstraint.applied = LocationConstraint.applied
location_constraint RangeConstraint.unapplied = LocationConstraint.unapplied
location_constraint RangeConstraint.hidden = LocationConstraint.hidden

-- `Display` of `PatchOffsetAtom`
unfoldable pub format_atom : PatchOffsetAtom → Text
format_atom (plus (some n)) = b'+' ∷ format_usize n
format_atom (plus none) = b'+' ∷ []
format_atom (tilde (some n)) = b'~' ∷ format_usize n
format_atom (tilde none) = b'~' ∷ []

-- `Display` of `PatchId`
unfoldable pub format_id : PatchId → Text
format_id (name patchname) = patchname
format_id base = codes "{base}"
format_id top = codes "@"
format_id (below_top (some n)) = b'~' ∷ format_usize n
format_id (below_top none) = codes "~"
format_id (below_last none) = codes "^"
format_id (below_last (some n)) = b'^' ∷ format_isize n

-- `Display` of `PatchLocator`
unfoldable pub format_locator : PatchLocator → Text
unfolding format_id
format_locator locator = format_id locator.id ++ locator.offsets

unfoldable bound : Option PatchLocator → Text
unfolding format_locator
bound none = []
bound (some locator) = format_locator locator

-- `Display` of `PatchRangeBounds`
unfoldable pub format_bounds : PatchRangeBounds → Text
unfolding bound
format_bounds bounds = bound bounds.begin ++ (codes ".." ++ bound bounds.end)

-- `Display` of `PatchRange`
unfoldable pub format_range : PatchRange → Text
unfolding format_locator format_bounds
format_range (single locator) = format_locator locator
format_range (range bounds) = format_bounds bounds
