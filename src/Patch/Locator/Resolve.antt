-- ===== src/Patch/Locator/Resolve.antt =====
-- `disambiguate` and `resolve_name` of src/patch/locator.rs. A panic is `panic`: an overflow of
-- `isize` is one, as it is where overflow checks are on.
use stgit.Prelude.{
  Text, ℕ, zero, suc, Bool, true, false, is_empty, Option, none, some, List, [], ◌∷◌, ◌++◌, filter,
  length, get_elem?, leb, if◌then◌else◌, codes, ℤ, pos, negsuc, ◌+ℤ◌, checked_isize, as_isize,
  format_usize, format_signed,
}
use stgit.Patch.Name.{PatchName}
use stgit.Patch.Outcome.{Outcome, ok, err, panic, ◌>>=◌}
use stgit.Patch.Spec.{PatchId, PatchLocator, PatchOffsets, PatchOffsetAtom}
use stgit.Patch.Parse.Parsed.{read}
use stgit.Patch.Parse.Winnow.{whole}
use stgit.Patch.Parse.Numbers.{Sign}
use stgit.Patch.Parse.Locator.{
  patch_offsets, patch_offset_atoms, patch_locator_top, patch_locator_base, oid_prefix_offsets,
  sign_number_offsets,
}
use stgit.Patch.Locator.{
  Libraries, Error, DisambiguatedId, DisambiguatedLocator, patchnames_string, strip_prefix, neg,
  add, or_one, moved, position_in, unwrap, ok_or,
}
use stgit.Stack.Access.{
  StackStateAccess, all_patches, applied_and_unapplied, get_patch_commit, index_of,
}

-- `max_by_key` on the length of the name: of several maxima the last. The names are prefixes of
-- one text, so that they stand in the same order by bytes as by characters.
unfoldable pub longest : List (PatchName × PatchOffsets) → Option (PatchName × PatchOffsets)
longest [] = none
longest (p ∷ more) = elim (longest more) [
  | none ↦ some p
  | some q ↦ if leb (length p.0) (length q.0) then some q else some p
]

abbrev pub Resolves : Libraries → Type 0 → Type 0
Resolves lib A = Outcome (Error lib.Prefix) A

module _ (lib : Libraries) where
  unfoldable pub string_for_error : DisambiguatedId lib.Prefix → Text
  string_for_error (DisambiguatedId.name pn) = b'`' ∷ (pn ++ codes "`")
  string_for_error (DisambiguatedId.commit_id prefix) =
      codes "commit id `" ++ (lib.format_prefix prefix ++ codes "`")
  string_for_error DisambiguatedId.top = codes "topmost patch"
  string_for_error DisambiguatedId.base = codes "stack base"
  string_for_error (DisambiguatedId.index i) =
      codes "stack index `" ++ (format_usize i ++ codes "`")
  string_for_error (DisambiguatedId.from_top offset) =
      b'`' ∷ (format_signed offset ++ codes "` from topmost patch")
  string_for_error (DisambiguatedId.from_base offset) =
      b'`' ∷ (format_signed offset ++ codes "` from stack base")
  string_for_error (DisambiguatedId.from_last (pos zero)) = codes "last patch"
  string_for_error (DisambiguatedId.from_last offset) =
      format_signed offset ++ codes " from last patch"

  -- The patches of which the name is an extension by offsets.
  unfoldable pub prefix_patches : Text → List PatchName → List (PatchName × PatchOffsets)
  prefix_patches text [] = []
  prefix_patches text (pn ∷ more) =
      let rest = prefix_patches text more in
      elim (strip_prefix pn text) [
        | none ↦ rest
        | some suffix ↦ elim (whole (patch_offsets lib.winnow suffix)) [
          | none ↦ rest
          | some offsets ↦ (pn, offsets) ∷ rest
        ]
      ]

  -- `n.map_or(-1, |n| -(n as isize))`
  unfoldable pub below_top_id : Option ℕ → Resolves lib (DisambiguatedId lib.Prefix)
  below_top_id none = ok (DisambiguatedId.from_top (negsuc 0))
  below_top_id (some n) = do m ← unwrap (neg (as_isize n)); ok (DisambiguatedId.from_top m)

  -- `n.map_or(0, |n| -n)`
  unfoldable pub below_last_id : Option ℤ → Resolves lib (DisambiguatedId lib.Prefix)
  below_last_id none = ok (DisambiguatedId.from_last (pos 0))
  below_last_id (some n) = do m ← unwrap (neg n); ok (DisambiguatedId.from_last m)

  unfoldable pub top_id : PatchId → Resolves lib (DisambiguatedId lib.Prefix)
  unfolding below_top_id
  top_id PatchId.top = ok DisambiguatedId.top
  top_id (PatchId.below_top n) = below_top_id n
  top_id _ = panic

  -- `offsets.atoms()`
  unfoldable pub atoms : PatchOffsets → Resolves lib (List PatchOffsetAtom)
  atoms offsets = elim (patch_offset_atoms lib.winnow offsets) [ read a rest ↦ ok a | _ ↦ panic ]

  -- The loop over the offsets.
  unfoldable pub walk : ℕ → Error lib.Prefix → ℤ → List PatchOffsetAtom → Resolves lib ℤ
  walk count outside at [] = ok at
  walk count outside at (atom ∷ more) = elim (moved at atom) [
    | none ↦ err outside
    | some z ↦ elim (position_in count z) [
      | none ↦ err outside
      | some i ↦ walk count outside (pos i) more
    ]
  ]

module _ (lib : Libraries) {S : Type 0} ⦃access : StackStateAccess S⦄ where
  -- `similar_patchnames`
  unfoldable pub similar_patchnames : S → PatchName → Option Text
  similar_patchnames s patchname =
      patchnames_string (filter (λ pn. lib.is_similar pn patchname) (all_patches s))

  -- `oid_prefix.cmp_oid(&stack.get_patch_commit_id(pn)) == Ordering::Equal`
  unfoldable pub patch_matches : S → lib.Prefix → PatchName → Resolves lib Bool
  patch_matches s prefix pn = elim (get_patch_commit s pn) [
    | none ↦ panic
    | some commit ↦ ok (lib.cmp_oid prefix commit.id)
  ]

  unfoldable pub any_matches : S → lib.Prefix → List PatchName → Resolves lib Bool
  unfolding patch_matches
  any_matches s prefix [] = ok false
  any_matches s prefix (pn ∷ more) = do
    found ← patch_matches s prefix pn
    if found then ok true else any_matches s prefix more

  unfoldable pub matching_names : S → lib.Prefix → List PatchName → Resolves lib (List PatchName)
  unfolding patch_matches
  matching_names s prefix [] = ok []
  matching_names s prefix (pn ∷ more) = do
    found ← patch_matches s prefix pn
    rest ← matching_names s prefix more
    ok (if found then pn ∷ rest else rest)

  -- The number after a sign, from the top or from the base.
  unfoldable pub signed_id : S → ℤ → DisambiguatedId lib.Prefix
  signed_id s n =
      if is_empty (access.applied s)
      then DisambiguatedId.from_base n
      else DisambiguatedId.from_top n

  unfoldable pub number_id : S → Option Sign → Option ℕ → Resolves lib (DisambiguatedId lib.Prefix)
  unfolding signed_id
  number_id s (some Sign.plus) maybe_n = do
    n ← unwrap (checked_isize (pos (or_one maybe_n)))
    ok (signed_id s n)
  number_id s (some Sign.minus) maybe_n = do
    n ← unwrap (checked_isize (pos (or_one maybe_n)))
    m ← unwrap (neg n)
    ok (signed_id s m)
  number_id s none maybe_n = do n ← unwrap maybe_n; ok (DisambiguatedId.index n)

  -- The disambiguation of a name that is no patch of the stack, from its last alternative to its
  -- first.
  module _ (s : S) (patchname : PatchName) (self_offsets : PatchOffsets) where
    unfoldable pub by_number :
        Option (Option Sign × Option ℕ × PatchOffsets)
        → Resolves lib (DisambiguatedLocator lib.Prefix)
    unfolding number_id
    by_number none = ok (record { id = DisambiguatedId.name patchname; offsets = self_offsets })
    by_number (some (sign, maybe_n, offsets)) = do
      id ← number_id s sign maybe_n
      ok (record { id = id; offsets = offsets ++ self_offsets })

    unfoldable pub by_oid_prefix :
        Option (lib.Prefix × PatchOffsets) → Resolves lib (DisambiguatedLocator lib.Prefix)
    unfolding by_number any_matches
    by_oid_prefix none = by_number (whole (sign_number_offsets lib.winnow patchname))
    by_oid_prefix (some (prefix, offsets)) = do
      found ← any_matches s prefix (all_patches s)
      if found
          then ok
              (record { id = DisambiguatedId.commit_id prefix; offsets = offsets ++ self_offsets })
          else by_number (whole (sign_number_offsets lib.winnow patchname))

    unfoldable pub by_base : Option PatchLocator → Resolves lib (DisambiguatedLocator lib.Prefix)
    unfolding by_oid_prefix
    by_base none = by_oid_prefix (whole (oid_prefix_offsets lib.winnow lib.from_hex patchname))
    by_base (some locator) = elim locator.id [
      | PatchId.base ↦
          ok (record { id = DisambiguatedId.base; offsets = locator.offsets ++ self_offsets })
      | _ ↦ by_oid_prefix (whole (oid_prefix_offsets lib.winnow lib.from_hex patchname))
    ]

    unfoldable pub by_top : Option PatchLocator → Resolves lib (DisambiguatedLocator lib.Prefix)
    unfolding by_base top_id
    by_top none = by_base (whole (patch_locator_base lib.winnow patchname))
    by_top (some locator) = do
      id ← top_id lib locator.id
      ok (record { id = id; offsets = locator.offsets ++ self_offsets })

    unfoldable pub by_prefix :
        Option (PatchName × PatchOffsets) → Resolves lib (DisambiguatedLocator lib.Prefix)
    unfolding by_top
    by_prefix none = by_top (whole (patch_locator_top lib.winnow patchname))
    by_prefix (some (pn, offsets)) =
        ok (record { id = DisambiguatedId.name pn; offsets = offsets ++ self_offsets })

  unfoldable pub disambiguate_id :
      S → PatchId → PatchOffsets → Resolves lib (DisambiguatedLocator lib.Prefix)
  unfolding by_prefix longest prefix_patches below_top_id below_last_id
  disambiguate_id s PatchId.base offsets =
      ok (record { id = DisambiguatedId.base; offsets = offsets })
  disambiguate_id s PatchId.top offsets =
      if is_empty (access.applied s)
      then ok (record { id = DisambiguatedId.base; offsets = offsets })
      else ok (record { id = DisambiguatedId.top; offsets = offsets })
  disambiguate_id s (PatchId.below_top n) offsets = do
    id ← below_top_id lib n
    ok (record { id = id; offsets = offsets })
  disambiguate_id s (PatchId.below_last n) offsets = do
    id ← below_last_id lib n
    ok (record { id = id; offsets = offsets })
  disambiguate_id s (PatchId.name patchname) offsets =
      if access.has_patch s patchname
      then ok (record { id = DisambiguatedId.name patchname; offsets = offsets })
      else by_prefix s patchname offsets (longest (prefix_patches lib patchname (all_patches s)))

  unfoldable pub disambiguate : S → PatchLocator → Resolves lib (DisambiguatedLocator lib.Prefix)
  unfolding disambiguate_id
  disambiguate s locator = disambiguate_id s locator.id locator.offsets

  -- The patch that a commit id prefix selects.
  unfoldable pub only_match : S → lib.Prefix → List PatchName → Resolves lib ℤ
  only_match s prefix [] = panic
  only_match s prefix (pn ∷ []) = do i ← unwrap (index_of s pn); ok (pos i)
  only_match s prefix (pn ∷ qn ∷ more) = do
    names ← unwrap (patchnames_string (pn ∷ qn ∷ more))
    err (Error.ambiguous_commit_id prefix names)

  -- A position within the stack.
  unfoldable pub within : S → DisambiguatedId lib.Prefix → ℤ → Resolves lib ℤ
  unfolding string_for_error
  within s id at = do
    i ←
        ok_or (Error.invalid_offset_from (string_for_error lib id))
          (position_in (length (all_patches s)) at)
    ok (pos i)

  unfoldable pub start_index : S → DisambiguatedId lib.Prefix → PatchOffsets → Resolves lib ℤ
  unfolding similar_patchnames matching_names only_match within
  start_index s (DisambiguatedId.name pn) offsets =
      if access.has_patch s pn
      then (do i ← unwrap (index_of s pn); ok (pos i))
      else elim (similar_patchnames s pn) [
        | some similar ↦ err (Error.patch_similar pn similar)
        | none ↦ err (Error.patch_not_known pn)
      ]
  start_index s (DisambiguatedId.commit_id prefix) offsets = do
    names ← matching_names s prefix (all_patches s)
    only_match s prefix names
  start_index s DisambiguatedId.top offsets = ok (pos (length (access.applied s)) +ℤ negsuc 0)
  start_index s DisambiguatedId.base offsets =
      if is_empty offsets then err Error.base_needs_offset else ok (negsuc 0)
  start_index s (DisambiguatedId.index i) offsets = do
    j ← ok_or (Error.invalid_patch_index i) (position_in (length (all_patches s)) (pos i))
    ok (pos j)
  start_index s (DisambiguatedId.from_top offset) offsets = do
    at ← unwrap (add (pos (length (access.applied s)) +ℤ negsuc 0) offset)
    within s (DisambiguatedId.from_top offset) at
  start_index s (DisambiguatedId.from_base (pos (suc n))) offsets =
      within s (DisambiguatedId.from_base (pos (suc n))) (pos n)
  start_index s (DisambiguatedId.from_base _) offsets = err Error.base_needs_positive_offset
  start_index s (DisambiguatedId.from_last offset) offsets =
      if is_empty (all_patches s)
      then err Error.no_last_patch
      else elim (length (applied_and_unapplied s)) [
        | zero ↦ panic
        | suc last ↦ within s (DisambiguatedId.from_last offset) (pos last +ℤ offset)
      ]

  -- `patches[index as usize].clone()`
  unfoldable pub patch_at : S → ℤ → Resolves lib PatchName
  patch_at s (pos i) = unwrap (get_elem? (all_patches s) i)
  patch_at s (negsuc i) = panic

  unfoldable pub resolve_name : S → PatchLocator → Resolves lib PatchName
  unfolding disambiguate start_index atoms walk patch_at string_for_error
  resolve_name s locator = do
    l ← disambiguate s locator
    start ← start_index s l.id l.offsets
    steps ← atoms lib l.offsets
    at ←
        walk lib (length (all_patches s))
          (Error.invalid_patch_offset (string_for_error lib l.id) l.offsets) start steps
    patch_at s at
