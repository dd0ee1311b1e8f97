-- ===== src/Stack/Transaction/Push.antt =====
-- src/stack/transaction/mod.rs: `push_tree`, `push_tree_patches`, `push_patches`, `push_patch` and
-- `check_merged`, with `is_no_change` of src/ext/commit.rs.
pub mod Merging
pub mod Outcome
pub mod Loop
pub mod Merged
use stgit.Prelude.{
  Text, ℕ, Bool, true, false, not, ◌&&◌, ◌||◌, List, [], ◌∷◌, ◌++◌, Option, none, some, insert,
  contains, position, erase_idx, codes, is_empty, reverse, ◌==◌, if◌then◌else◌, text_Eq, nat_eq,
  head?,
}
use stgit.Exec.{Error, bail, halt, panic, pure, raise, ◌>>=◌, ◌>>◌}
use stgit.Host.{
  ObjectId, Signature, Commit, Reply, done, fault, PushStatus, already_merged, conflict, empty,
  modified, unmodified, Host, merged, pushed,
}
use stgit.Patch.Name.{PatchName}
use stgit.Stack.Access.{PatchState}
use stgit.Stack.Transaction.Defs.{
  StackTransaction, TransactionOptions, allow, M, get, put, call, try_call, attempt, config, print,
  unwrap, top, get_patch,
}
use stgit.Stack.Transaction.Lists.{with_updated}
use stgit.Stack.Transaction.Names.{patch_at}
use stgit.Stack.Transaction.Merge.{
  is_tree, is_conflict, is_already_merged, get_parent_commit, recommit, merge_trees,
}

-- The pushed name leaves the unapplied or the hidden list.
unfoldable pub taken_out : StackTransaction → PatchName → Option StackTransaction
taken_out self patchname = elim (position (λ pn. pn == patchname) self.unapplied) [
  | some pos ↦ some (record self { unapplied = erase_idx self.unapplied pos })
  | none ↦ elim (position (λ pn. pn == patchname) self.hidden) [
    | some pos ↦ some (record self { hidden = erase_idx self.hidden pos })
    | none ↦ none
  ]
]

-- `self.applied.push(patchname)`
abbrev pub with_applied : StackTransaction → PatchName → StackTransaction
with_applied self patchname = record self { applied = self.applied ++ patchname ∷ [] }

-- The name moves to the applied patches, from whichever list holds it.
unfoldable pub moved_to_applied : StackTransaction → PatchName → StackTransaction
unfolding taken_out
moved_to_applied self patchname = elim (taken_out self patchname) [
  | some self' ↦ with_applied self' patchname
  | none ↦ with_applied self patchname
]

module _ {W : Type 0} (host : Host W) where
  unfoldable pub push_tree : PatchName → Bool → M W (Unit {0})
  unfolding get_parent_commit recommit taken_out
  push_tree patchname is_last = do
    self ← get
    patch ← unwrap (get_patch self patchname)
    parent ← get_parent_commit host patch.commit
    let is_empty_patch = nat_eq parent.tree_id patch.commit.tree_id
    parent_id ← unwrap (head? patch.commit.parent_ids)
    top_commit ← unwrap (top self)
    status ← if nat_eq parent_id top_commit.id then pure unmodified else do
      author ← call (host.author_strict patch.commit)
      default_committer ← call host.get_committer
      commit ←
          recommit host author default_committer patch.commit patch.commit.tree_id top_commit.id
      put (with_updated self patchname (patch_at commit))
      pure modified
    self' ← get
    self'' ← unwrap (taken_out self' patchname)
    put (with_applied self'' patchname)
    print host (pushed patchname (if is_empty_patch then empty else status) is_last)

  unfoldable pub push_tree_patches : List PatchName → M W (Unit {0})
  push_tree_patches [] = pure tt
  push_tree_patches (patchname ∷ patchnames) = do
    push_tree patchname (is_empty patchnames)
    push_tree_patches patchnames

  -- The new commit of the pushed patch, where its tree or its parent has changed; the status that
  -- is left.
  unfoldable pub update_pushed :
      Signature → PatchName → Commit → Commit → Commit → ObjectId → PushStatus → M W PushStatus
  unfolding recommit
  update_pushed default_committer patchname patch_commit old_parent new_parent new_tree_id status =
      if nat_eq new_tree_id patch_commit.tree_id && nat_eq new_parent.id old_parent.id
      then pure status
      else do
        author ← call (host.author_strict patch_commit)
        commit ← recommit host author default_committer patch_commit new_tree_id new_parent.id
        self ← get
        if is_conflict status
            then (do
              put (
                  with_updated (record self { updated_head = some commit }) patchname
                    (patch_at commit))
              pure status)
            else (do
              put (with_updated self patchname (patch_at commit))
              pure (
                  if not (is_already_merged status) && nat_eq new_tree_id new_parent.tree_id
                  then empty
                  else status))

  -- The last part of `push_patch`.
  unfoldable pub finish_push : PatchName → PushStatus → Bool → M W (Unit {0})
  unfolding moved_to_applied
  finish_push patchname status is_last = do
    self ← get
    put (
        moved_to_applied
          (if is_conflict status
            then record self { options = record self.options { conflict_mode = allow } }
            else self)
          patchname)
    print host (pushed patchname status is_last)
    if is_conflict status then raise (halt (codes "merge conflicts") true) else pure tt

  -- The result is what the temporary index is recorded to hold.
  unfoldable pub push_patch : PatchName → Bool → Bool → Option ObjectId → M W (Option ObjectId)
  unfolding get_parent_commit merge_trees update_pushed finish_push
  push_patch patchname is_merged is_last temp_index_tree_id = do
    default_committer ← call host.get_committer
    self ← get
    patch ← unwrap (get_patch self patchname)
    old_parent ← get_parent_commit host patch.commit
    new_parent ← unwrap (top self)
    result ←
        merge_trees host patchname is_merged patch.commit old_parent new_parent temp_index_tree_id
    status ←
        update_pushed default_committer patchname patch.commit old_parent new_parent result.0.0
          result.0.1
    finish_push patchname status is_last
    pure result.1

  -- `is_no_change`: the commit has one parent, with the same tree.
  is_no_change : Commit → List ObjectId → M W Bool
  is_no_change commit [] = pure false
  is_no_change commit (parent_id ∷ []) = do
    parent ← call (host.find_commit parent_id)
    pure (nat_eq parent.tree_id commit.tree_id)
  is_no_change commit (parent_id ∷ other ∷ others) = pure false

  -- One round of `check_merged`: the names found so far, and the temporary index.
  check_merged_round :
      PatchName → List PatchName × Option ObjectId → M W (List PatchName × Option ObjectId)
  unfolding is_no_change get_parent_commit
  check_merged_round patchname found = do
    self ← get
    patch ← unwrap (get_patch self patchname)
    no_change ← is_no_change patch.commit patch.commit.parent_ids
    if no_change then pure found else do
      parent_commit ← get_parent_commit host patch.commit
      reverts ←
          call (host.temp_apply_treediff_to_index patch.commit.tree_id parent_commit.tree_id false)
      pure (if reverts then (found.0 ++ patchname ∷ [], none) else found)

  check_merged_loop :
      List PatchName → List PatchName × Option ObjectId → M W (List PatchName × Option ObjectId)
  check_merged_loop [] found = pure found
  check_merged_loop (patchname ∷ patchnames) found = do
    found' ← check_merged_round patchname found
    check_merged_loop patchnames found'

  unfoldable pub check_merged :
      List PatchName → Option ObjectId → M W (List PatchName × Option ObjectId)
  unfolding check_merged_loop check_merged_round
  check_merged patchnames temp_index_tree_id = do
    self ← get
    let head_tree_id = self.stack.branch_head.tree_id
    if is_tree temp_index_tree_id head_tree_id
        then pure tt
        else call (host.temp_read_tree head_tree_id)
    found ← check_merged_loop (reverse patchnames) ([], some head_tree_id)
    print host (merged found.0)
    pure found

  -- The loop of `push_patches`, over the names that are left.
  unfoldable pub push_loop : List PatchName → List PatchName → Option ObjectId → M W (Unit {0})
  push_loop merged_names [] temp_index_tree_id = pure tt
  push_loop merged_names (patchname ∷ patchnames) temp_index_tree_id = do
    temp_index_tree_id' ←
        push_patch patchname (contains merged_names patchname) (is_empty patchnames)
          temp_index_tree_id
    push_loop merged_names patchnames temp_index_tree_id'

  unfoldable pub push_patches : List PatchName → Bool → M W (Unit {0})
  unfolding push_loop push_patch check_merged
  push_patches patchnames checks_merged = do
    found ← if checks_merged then check_merged patchnames none else pure ([], none)
    push_loop found.0 patchnames found.1
