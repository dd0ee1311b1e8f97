-- ===== src/Patch/Messages.antt =====
-- The messages of the errors of src/patch/name.rs, src/patch/locator.rs and src/patch/range.rs.
use stgit.Prelude.{Text, ◌++◌, codes, format_usize}
use stgit.Patch.Locator
use stgit.Patch.Locator.{Libraries}
use stgit.Patch.Range.{Error}
use stgit.Stack.Access.{LocationGroup}

-- `Display` of `LocationGroup`
unfoldable pub format_group : LocationGroup → Text
format_group LocationGroup.applied = codes "applied"
format_group LocationGroup.unapplied = codes "unapplied"
format_group LocationGroup.hidden = codes "hidden"

module _ (lib : Libraries) where
  unfoldable pub locator_message : Locator.Error lib.Prefix → Text
  locator_message (Locator.Error.patch_similar pn similar) =
      codes "patch `" ++ (pn ++ (codes "` does not exist, but is similar to " ++ similar))
  locator_message (Locator.Error.patch_not_known pn) =
      codes "patch `" ++ (pn ++ codes "` does not exist")
  locator_message (Locator.Error.invalid_patch_index i) =
      codes "invalid patch index `" ++ (format_usize i ++ codes "`")
  locator_message (Locator.Error.invalid_patch_offset id offsets) =
      codes "`" ++ (offsets ++ (codes "` from " ++ (id ++ codes " goes outside the stack")))
  locator_message (Locator.Error.invalid_offset_from id) = codes "no patch at " ++ id
  locator_message Locator.Error.base_needs_offset =
      codes "an offset is required when locating a patch relative to the stack base"
  locator_message Locator.Error.base_needs_positive_offset =
      codes "a positive offset is required when locating a patch relative to the stack base"
  locator_message Locator.Error.no_last_patch =
      codes "cannot locate last patch because stack is empty"
  locator_message (Locator.Error.ambiguous_commit_id prefix names) =
      codes "ambiguous commit id `"
      ++ (lib.format_prefix prefix ++ (codes "` matches patches " ++ names))

  unfoldable pub range_message : Error lib.Prefix → Text
  unfolding locator_message format_group
  range_message (Error.patch_not_allowed pn group) =
      format_group group ++ (codes " patch `" ++ (pn ++ codes "` is not allowed"))
  range_message (Error.locator e) = locator_message e
  range_message (Error.duplicate pn) = codes "patch `" ++ (pn ++ codes "` is used more than once")
  range_message (Error.not_contiguous item prev) =
      codes "`"
      ++ (item ++ (codes "` not contiguous with preceding range `" ++ (prev ++ codes "`")))
  range_message (Error.boundary_order begin end) =
      codes "end patch `" ++ (end ++ (codes "` is out of order with `" ++ (begin ++ codes "`")))
