-- ===== src/Patch/Locator.antt =====
-- `PatchLocator::resolve_name` of src/patch/locator.rs. The commit id prefixes of the gix library,
-- the similarity of the strsim library and the parser combinators are parameters.
pub mod Resolve
pub mod Found
pub mod Moves
pub mod Anchored
use stgit.Prelude.{
  ◌≡◌, arith, Text, ℕ, zero, suc, ◌-◌, ◌^◌, Bool, true, false, is_empty, Option, none, some, List,
  [], ◌∷◌, ◌++◌, map, filter, length, get_elem?, get_last?, take, drop, nat_eq, ltb, leb, text_eq,
  if◌then◌else◌, codes, ℤ, pos, negsuc, ◌+ℤ◌, negate, checked_isize, as_isize, format_usize,
  format_signed,
}
use stgit.Host.{ObjectId, Commit}
use stgit.Patch.Name.{PatchName}
use stgit.Patch.Outcome.{Outcome, ok, err, panic, ◌>>=◌}
use stgit.Patch.Spec.{PatchId, PatchLocator, PatchOffsets, PatchOffsetAtom}
use stgit.Patch.Parse.Parsed.{Parsed, read}
use stgit.Patch.Parse.Winnow.{Winnow, whole}
use stgit.Patch.Parse.Numbers.{Sign}
use stgit.Patch.Parse.Locator.{
  patch_offsets, patch_offset_atoms, patch_locator_top, patch_locator_base, oid_prefix_offsets,
  sign_number_offsets,
}
use stgit.Stack.Access.{
  StackStateAccess, all_patches, applied_and_unapplied, get_patch_commit, index_of,
}

-- What the resolution uses of other libraries.
pub record Libraries : Type 1 where
  pub winnow : Winnow
  -- `gix::hash::Prefix`, its `from_hex`, its `cmp_oid(_) == Ordering::Equal` and its `Display`.
  pub Prefix : Type 0
  pub from_hex : Text → Option Prefix
  pub cmp_oid : Prefix → ObjectId → Bool
  pub format_prefix : Prefix → Text
  -- `strsim::jaro_winkler(_, _) > 0.75`
  pub is_similar : Text → Text → Bool

pub data Error (Prefix : Type 0) : Type 0 where
  patch_similar : PatchName → Text → Error Prefix
  patch_not_known : PatchName → Error Prefix
  invalid_patch_index : ℕ → Error Prefix
  invalid_patch_offset : Text → PatchOffsets → Error Prefix
  invalid_offset_from : Text → Error Prefix
  base_needs_offset base_needs_positive_offset no_last_patch : Error Prefix
  ambiguous_commit_id : Prefix → Text → Error Prefix

pub data DisambiguatedId (Prefix : Type 0) : Type 0 where
  name : PatchName → DisambiguatedId Prefix
  commit_id : Prefix → DisambiguatedId Prefix
  top base : DisambiguatedId Prefix
  index : ℕ → DisambiguatedId Prefix
  from_top from_base from_last : ℤ → DisambiguatedId Prefix

pub record DisambiguatedLocator (Prefix : Type 0) : Type 0 where
  pub id : DisambiguatedId Prefix
  pub offsets : PatchOffsets

quoted : PatchName → Text
quoted pn = b'`' ∷ (pn ++ codes "`")

quoted_list : List PatchName → Text
unfolding quoted
quoted_list [] = []
quoted_list (pn ∷ []) = codes "and " ++ quoted pn
quoted_list (pn ∷ qn ∷ more) = quoted pn ++ (codes ", " ++ quoted_list (qn ∷ more))

unfoldable pub patchnames_string : List PatchName → Option Text
unfolding quoted quoted_list
patchnames_string [] = none
patchnames_string (pn ∷ []) = some (quoted pn)
patchnames_string (pn ∷ qn ∷ []) = some (quoted pn ++ (codes " and " ++ quoted qn))
patchnames_string (pn ∷ qn ∷ rn ∷ more) = some (quoted_list (pn ∷ qn ∷ rn ∷ more))

-- `strip_prefix`
unfoldable pub strip_prefix : Text → Text → Option Text
strip_prefix [] text = some text
strip_prefix (c ∷ more) [] = none
strip_prefix (c ∷ more) (d ∷ text) = if nat_eq c d then strip_prefix more text else none

-- `-n`, with `none` for the panic at the least `isize`.
unfoldable pub neg : ℤ → Option ℤ
neg n = checked_isize (negate n)

-- A sum of two `isize`, with `none` for the panic of an overflow.
unfoldable pub add : ℤ → ℤ → Option ℤ
add a b = checked_isize (a +ℤ b)

-- `n.unwrap_or(1)`
abbrev pub or_one : Option ℕ → ℕ
or_one none = 1
or_one (some n) = n

-- `checked_add_unsigned` and `checked_sub_unsigned`
unfoldable pub moved : ℤ → PatchOffsetAtom → Option ℤ
moved at (PatchOffsetAtom.plus n) = checked_isize (at +ℤ pos (or_one n))
moved at (PatchOffsetAtom.tilde n) = checked_isize (at +ℤ negate (pos (or_one n)))

-- A position of a list, from an `isize`.
abbrev pub position_in : ℕ → ℤ → Option ℕ
position_in count (pos n) = if ltb n count then some n else none
position_in count (negsuc n) = none

module _ {E A : Type 0} where
  abbrev pub unwrap : Option A → Outcome E A
  unwrap none = panic
  unwrap (some a) = ok a

  abbrev pub ok_or : E → Option A → Outcome E A
  ok_or e none = err e
  ok_or e (some a) = ok a

  pub unwrap-ok : (o : Option A) (a : A) → unwrap o ≡ ok a → o ≡ some a
  unwrap-ok none a h = cc
  unwrap-ok (some x) a h = ground arith
