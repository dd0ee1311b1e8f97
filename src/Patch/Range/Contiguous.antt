-- ===== src/Patch/Range/Contiguous.antt =====
-- `resolve_names_contiguous` of src/patch/range.rs.
pub mod Panics
use stgit.Prelude.{
  Text, ℕ, suc, ◌-◌, Bool, true, false, not, ◌&&◌, Option, none, some, List, [], ◌∷◌, ◌++◌,
  contains, nat_eq, ltb, get_elem?, if◌then◌else◌, text_Eq,
}
use stgit.Patch.Name.{PatchName}
use stgit.Patch.Outcome.{Outcome, ok, err, panic, ◌>>=◌, map_err}
use stgit.Patch.Spec.{
  PatchLocator, PatchRange, PatchRangeBounds, RangeConstraint, location_constraint, format_range,
}
use stgit.Patch.Locator.{Libraries, unwrap}
use stgit.Patch.Locator.Resolve.{resolve_name}
use stgit.Patch.Range.{
  Error, Chosen, constrain, allowed_patches, resolve_bound, allowed_position, begin_position,
  open_end, slice, push_all,
}
use stgit.Stack.Access.{StackStateAccess}

-- The variables of the loop.
pub record Progress : Type 0 where
  pub patches : List PatchName
  pub next_pos : Option ℕ
  pub prev_range : Option PatchRange

-- `next_pos.is_some() && Some(begin_pos) != next_pos`
abbrev pub is_gap : Option ℕ → ℕ → Bool
is_gap none begin_pos = false
is_gap (some next) begin_pos = not (nat_eq begin_pos next)

module _ (lib : Libraries) where
  -- The check that a range starts where the one before it ended.
  unfoldable pub check_contiguous : Progress → PatchRange → ℕ → Chosen lib (Unit {0})
  check_contiguous p item begin_pos =
      if is_gap p.next_pos begin_pos
      then (do
        prev ← unwrap p.prev_range
        err (Error.not_contiguous (format_range item) (format_range prev)))
      else ok tt

module _ (lib : Libraries) {S : Type 0} ⦃access : StackStateAccess S⦄ (s : S)
    (allow_range : RangeConstraint) where
  unfoldable pub check_order : ℕ → PatchName → ℕ → Chosen lib (Option ℕ)
  check_order begin_pos pn end_pos =
      if ltb end_pos begin_pos
      then (do
        begin_patchname ← unwrap (get_elem? (allowed_patches lib s allow_range) begin_pos)
        err (Error.boundary_order begin_patchname pn))
      else ok (some end_pos)

  -- The checked end of a range; `none` skips the range.
  unfoldable pub end_position : ℕ → Option PatchName → Chosen lib (Option ℕ)
  unfolding allowed_position open_end check_order
  end_position begin_pos (some pn) = do
    end_pos ← allowed_position lib s allow_range pn
    check_order begin_pos pn end_pos
  end_position begin_pos none = ok (open_end lib s allow_range begin_pos)

  -- A `continue` leaves the preceding range as it was.
  unfoldable pub append_slice : Progress → PatchRange → ℕ → Option ℕ → Chosen lib Progress
  append_slice p item begin_pos none = ok p
  append_slice p item begin_pos (some end_pos) = do
    names ← unwrap (slice begin_pos end_pos (allowed_patches lib s allow_range))
    pushed ← push_all lib p.patches names
    ok (record { patches = pushed; next_pos = some (suc end_pos); prev_range = some item })

  unfoldable pub append_fresh : Progress → PatchRange → PatchName → Chosen lib Progress
  unfolding check_contiguous allowed_position
  append_fresh p item pn = do
    at ← allowed_position lib s allow_range pn
    checked ← check_contiguous lib p item at
    ok (record { patches = p.patches ++ pn ∷ []; next_pos = some (suc at); prev_range = some item })

  unfoldable pub append_single : Progress → PatchRange → PatchName → Chosen lib Progress
  unfolding append_fresh
  append_single p item pn =
      if contains p.patches pn then err (Error.duplicate pn) else append_fresh p item pn

  unfoldable pub contiguous_round : Progress → PatchRange → Chosen lib Progress
  unfolding resolve_bound begin_position check_contiguous end_position append_slice append_single
      constrain
  contiguous_round p (PatchRange.range bounds) = do
    begin ← resolve_bound lib s allow_range bounds.begin
    end ← resolve_bound lib s allow_range bounds.end
    begin_pos ← begin_position lib s allow_range begin
    checked ← check_contiguous lib p (PatchRange.range bounds) begin_pos
    end_pos ← end_position begin_pos end
    append_slice p (PatchRange.range bounds) begin_pos end_pos
  contiguous_round p (PatchRange.single loc) = do
    resolved ← map_err Error.locator (resolve_name lib s loc)
    pn ← constrain lib s resolved (location_constraint allow_range)
    append_single p (PatchRange.single loc) pn

  unfoldable pub contiguous_loop : Progress → List PatchRange → Chosen lib (List PatchName)
  unfolding contiguous_round
  contiguous_loop p [] = ok p.patches
  contiguous_loop p (item ∷ more) = do next ← contiguous_round p item; contiguous_loop next more

  unfoldable pub resolve_names_contiguous : List PatchRange → Chosen lib (List PatchName)
  unfolding contiguous_loop
  resolve_names_contiguous ranges =
      contiguous_loop (record { patches = []; next_pos = none; prev_range = none }) ranges
