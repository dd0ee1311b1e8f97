-- ===== src/Stack/Transaction/Merge.antt =====
-- src/stack/transaction/mod.rs: the merge and the new commit of `push_patch`, with
-- `get_parent_commit` of src/ext/commit.rs.
use stgit.Prelude.{
  Bool, true, false, not, [], ◌∷◌, Option, none, some, codes, if◌then◌else◌, text_Eq, nat_eq, head?,
}
use stgit.Exec.{bail, halt, pure, raise, ◌>>=◌, ◌>>◌}
use stgit.Host.{
  ObjectId, Signature, Commit, Reply, done, fault, PushStatus, already_merged, conflict, modified,
  unmodified, Host,
}
use stgit.Patch.Name.{PatchName}
use stgit.Stack.Transaction.Defs.{TransactionOptions, M, get, put, call, try_call, attempt, config}

-- `a == Some(b)`
abbrev pub is_tree : Option ObjectId → ObjectId → Bool
is_tree none tree_id = false
is_tree (some other) tree_id = nat_eq other tree_id

-- `option.unwrap_or(default)` of a setting.
abbrev pub config_or : Bool → Option Bool → Bool
config_or default none = default
config_or default (some value) = value

abbrev pub is_conflict : PushStatus → Bool
is_conflict conflict = true
is_conflict _ = false

abbrev pub is_already_merged : PushStatus → Bool
is_already_merged already_merged = true
is_already_merged _ = false

-- The committer of a new commit.
abbrev pub committer_for : TransactionOptions → Signature → Signature → Signature
committer_for options author default_committer =
    if options.committer_date_is_author_date
    then record default_committer { time = author.time }
    else default_committer

module _ {W : Type 0} (host : Host W) where
  unfoldable pub get_parent_commit : Commit → M W Commit
  get_parent_commit commit = elim (head? commit.parent_ids) [
    | some parent_id ↦ call (host.find_commit parent_id)
    | none ↦ raise (bail (codes "does not have a parent"))
  ]

  -- A new commit like `patch_commit`, with another tree and another parent.
  unfoldable pub recommit : Signature → Signature → Commit → ObjectId → ObjectId → M W Commit
  recommit author default_committer patch_commit tree_id parent_id = do
    self ← get
    commit_id ← call (
        host.commit_ex author (committer_for self.options author default_committer)
          patch_commit.message tree_id (parent_id ∷ []))
    commit ← call (host.find_commit commit_id)
    attempt (host.notes_copy patch_commit.id commit_id)
    pure commit

  -- `stupid.write_tree()` behind a merge with no conflict.
  unfoldable pub merged_tree : Reply ObjectId → M W (ObjectId × PushStatus)
  merged_tree (fault message) = raise (halt (codes "conflicting merge") false)
  merged_tree (done tree_id) = do
    self ← get
    put (record self { current_tree_id = tree_id })
    pure (tree_id, modified)

  -- The `match` on the result of `merge_recursive_or_mergetool`.
  unfoldable pub merge_outcome : ObjectId → Reply Bool → M W (ObjectId × PushStatus)
  unfolding merged_tree
  merge_outcome ours (fault message) = raise (halt message false)
  merge_outcome ours (done true) = do written ← try_call host.write_tree; merged_tree written
  merge_outcome ours (done false) = pure (ours, conflict)

  -- The merge behind the checkout of our tree.
  unfoldable pub merge_checked_out :
      ObjectId → ObjectId → ObjectId → Reply (Unit {0}) → M W (ObjectId × PushStatus)
  unfolding merge_outcome
  merge_checked_out base ours theirs (fault message) =
      raise (halt (codes "index/worktree dirty") false)
  merge_checked_out base ours theirs (done _) = do
    self ← get
    put (record self { current_tree_id = ours })
    use_mergetool ← config host (codes "stgit.autoimerge")
    outcome ←
        try_call
          (host.merge_recursive_or_mergetool base ours theirs (config_or false use_mergetool))
    merge_outcome ours outcome

  -- The part of `push_patch` that merges in the index and the working tree.
  unfoldable pub merge_in_worktree :
      PatchName → ObjectId → ObjectId → ObjectId → M W (ObjectId × PushStatus)
  unfolding merge_checked_out
  merge_in_worktree patchname base ours theirs = do
    self ← get
    configured ← config host (codes "stgit.push.allow-conflicts")
    if not self.options.use_index_and_worktree
        then raise (halt (codes "does not apply cleanly") false)
        else if not (config_or (config_or true configured) self.options.allow_push_conflicts)
        then raise (halt (codes "push conflicts are disallowed") false)
        else do
          checked_out ← try_call (host.read_tree_checkout self.current_tree_id ours)
          merge_checked_out base ours theirs checked_out

  -- `stupid_temp.write_tree().ok()` behind the diff; without a tree the working tree is used.
  unfoldable pub index_outcome :
      PatchName → ObjectId → ObjectId → ObjectId → Reply ObjectId → M W (ObjectId × PushStatus)
  unfolding merge_in_worktree
  index_outcome patchname base ours theirs (done tree_id) = pure (tree_id, unmodified)
  index_outcome patchname base ours theirs (fault message) =
      merge_in_worktree patchname base ours theirs

  -- The part of `push_patch` that applies the diff to the temporary index, and what the temporary
  -- index is then recorded to hold.
  unfoldable pub merge_in_index :
      PatchName
      → ObjectId
      → ObjectId
      → ObjectId
      → Option ObjectId
      → M W ((ObjectId × PushStatus) × Option ObjectId)
  unfolding index_outcome
  merge_in_index patchname base ours theirs temp_index_tree_id = do
    if is_tree temp_index_tree_id ours then pure tt else call (host.temp_read_tree ours)
    applies ← call (host.temp_apply_treediff_to_index base theirs true)
    written ← if applies then try_call host.temp_write_tree else pure (fault (codes "conflict"))
    result ← index_outcome patchname base ours theirs written
    pure (result, some ours)

  -- The tree of the pushed patch.
  unfoldable pub merge_trees :
      PatchName
      → Bool
      → Commit
      → Commit
      → Commit
      → Option ObjectId
      → M W ((ObjectId × PushStatus) × Option ObjectId)
  unfolding merge_in_index
  merge_trees patchname is_merged patch_commit old_parent new_parent temp_index_tree_id =
      if is_merged
      then pure ((new_parent.tree_id, already_merged), temp_index_tree_id)
      else if nat_eq old_parent.tree_id new_parent.tree_id
      then pure ((patch_commit.tree_id, unmodified), temp_index_tree_id)
      else if nat_eq old_parent.tree_id patch_commit.tree_id
      then pure ((new_parent.tree_id, unmodified), temp_index_tree_id)
      else if nat_eq new_parent.tree_id patch_commit.tree_id
      then pure ((patch_commit.tree_id, unmodified), temp_index_tree_id)
      else if is_tree temp_index_tree_id patch_commit.tree_id
      then merge_in_index patchname old_parent.tree_id patch_commit.tree_id new_parent.tree_id
          temp_index_tree_id
      else merge_in_index patchname old_parent.tree_id new_parent.tree_id patch_commit.tree_id
          temp_index_tree_id
