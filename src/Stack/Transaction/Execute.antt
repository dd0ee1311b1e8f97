-- ===== src/Stack/Transaction/Execute.antt =====
-- `ExecuteContext::execute` and `checkout` of src/stack/transaction/mod.rs.
pub mod Yields
pub mod Commits
use stgit.Prelude.{
  Text, Bool, true, false, not, ◌&&◌, ◌||◌, List, [], ◌∷◌, ◌++◌, Option, none, some, Map, insert,
  remove, get_last?, is_some, contains, map, if◌then◌else◌, ◌==◌, text_Eq, nat_eq, codes,
}
use stgit.Exec.{Error, bail, checkout_conflicts, halt, Exec, pure, raise, ◌>>=◌, ◌>>◌}
use stgit.Host.{ObjectId, Commit, Host, Reply, done, fault, rolled_back, top_is}
use stgit.Patch.Name.{PatchName}
use stgit.Stack.Access.{PatchState, all_patches}
use stgit.Stack.State.{Stack, StackState, stack_access, is_head_top}
use stgit.Stack.Repository.{
  Repository, RefEdit, RefChange, update, delete, branch_ref, stack_ref, patch_ref, any,
  existing_must_match, ask, try_ask, expect, map_err,
}
use stgit.Stack.Commit.{commit, log_external_mods, check_head_top_mismatch}
use stgit.Stack.Transaction.Defs.{
  ConflictMode, disallow, allow, allow_if_same_top, TransactionOptions, StackTransaction,
  transaction_access, head,
}

-- `trans_top.is_none() || trans_top != stack_top`
unfoldable pub top_differs : Option PatchName → Option PatchName → Bool
top_differs (some trans_top) (some stack_top) = not (trans_top == stack_top)
top_differs _ _ = true

module _ {W : Type 0} (host : Host W) where
  -- The branch of `checkout` where the tree stays.
  unfoldable pub check_same_tree :
      ConflictMode → Option PatchName → Option PatchName → Exec W (Unit {0})
  unfolding top_differs
  check_same_tree allow stack_top trans_top = pure tt
  check_same_tree allow_if_same_top stack_top trans_top =
      if top_differs trans_top stack_top then ask host.check_conflicts else pure tt
  check_same_tree disallow stack_top trans_top = ask host.check_conflicts

  -- The error of `read_tree_checkout` becomes `Error::CheckoutConflicts`.
  unfoldable pub checked_out : Reply (Unit {0}) → Exec W (Unit {0})
  checked_out (done a) = pure tt
  checked_out (fault message) = raise (checkout_conflicts message)

  unfoldable pub checkout :
      TransactionOptions
      → Option PatchName
      → Option PatchName
      → ObjectId
      → ObjectId
      → Exec W (Unit {0})
  unfolding check_same_tree checked_out
  checkout options stack_top trans_top current_tree_id tree_id =
      if nat_eq current_tree_id tree_id && not options.discard_changes
      then check_same_tree options.conflict_mode stack_top trans_top
      else if options.discard_changes
      then ask (host.read_tree_checkout_hard tree_id)
      else do
        ask host.update_index_refresh
        reply ← try_ask (host.read_tree_checkout current_tree_id tree_id)
        checked_out reply

-- The consistency check: a deleted patch is one of the original stack, an updated one is listed.
unfoldable pub updates_listed : StackTransaction → Map PatchName (Option PatchState) → Bool
updates_listed t [] = true
updates_listed t ((pn, none) ∷ updates) =
    stack_access.has_patch t.stack pn && updates_listed t updates
updates_listed t ((pn, some patch) ∷ updates) =
    contains (all_patches t) pn && updates_listed t updates

-- `state.patches` behind the loop over the updates. The names of a `BTreeMap` differ, so that the
-- order of the rounds does not matter.
unfoldable pub apply_updates :
    Map PatchName (Option PatchState) → Map PatchName PatchState → Map PatchName PatchState
apply_updates [] patches = patches
apply_updates ((pn, none) ∷ updates) patches = remove pn (apply_updates updates patches)
apply_updates ((pn, some patch) ∷ updates) patches = insert pn patch (apply_updates updates patches)

-- The state that `execute` commits.
abbrev pub state_after : StackTransaction → StackState → Commit → Commit → StackState
state_after t state prev_state_commit trans_head = record {
  prev = some prev_state_commit;
  head = trans_head;
  applied = t.applied;
  unapplied = t.unapplied;
  hidden = t.hidden;
  patches = apply_updates t.updated_patches state.patches;
}

unfoldable pub patch_edits : Map PatchName (Option PatchState) → List RefEdit
patch_edits [] = []
patch_edits ((pn, none) ∷ updates) =
    record { name = patch_ref pn; change = delete any } ∷ patch_edits updates
patch_edits ((pn, some patch) ∷ updates) =
    record { name = patch_ref pn; change = update any patch.commit.id } ∷ patch_edits updates

-- The edits of one reference transaction: the patches, the state, and the branch if it is to move.
unfoldable pub ref_edits : StackTransaction → Commit → ObjectId → Commit → List RefEdit
unfolding patch_edits
ref_edits t prev_state_commit state_commit_id trans_head =
    patch_edits t.updated_patches
    ++ (record {
      name = stack_ref;
      change = update (existing_must_match prev_state_commit.id) state_commit_id;
    }
        ∷ (if t.options.set_head
            then record { name = branch_ref; change = update any trans_head.id } ∷ []
            else []))

module _ {W : Type 0} where
  -- A halt goes on, with its mark of conflicts; any other error is returned.
  unfoldable pub has_conflicts : Option Error → Exec W Bool
  has_conflicts none = pure false
  has_conflicts (some (halt message conflicts)) = pure conflicts
  has_conflicts (some e) = raise e

module _ {W A : Type 0} (repo : Repository W) where
  -- The closure `rollback`, in place of a value: it ends with the error that is returned.
  unfoldable pub rollback : StackTransaction → ObjectId → Error → Exec W A
  unfolding checkout
  rollback t old_tree_id e = do
    let stack_top = get_last? t.stack.state.applied
    checkout repo.host t.options stack_top (get_last? t.applied) old_tree_id
        t.stack.branch_head.tree_id
    ask (repo.host.print (rolled_back stack_top))
    raise (bail (codes "command aborted (all changes rolled back)"))

module _ {W : Type 0} (repo : Repository W) where
  -- The checkout of the new top, if the transaction may change the working tree.
  unfoldable pub checkout_head : StackTransaction → Stack → Commit → Exec W (Unit {0})
  unfolding rollback
  checkout_head t stack trans_head =
      if t.options.set_head && t.options.use_index_and_worktree
      then (do
        if t.options.allow_bad_head then pure tt else check_head_top_mismatch repo stack
        map_err
            (checkout repo.host t.options (get_last? t.stack.state.applied) (get_last? t.applied)
              t.current_tree_id trans_head.tree_id)
            (λ e. rollback repo t t.current_tree_id e))
      else pure tt

  -- The closure of `critical`: the state and the references are written.
  unfoldable pub write_state : StackTransaction → Stack → Commit → Text → Exec W Stack
  unfolding apply_updates ref_edits
  write_state t stack trans_head state_reflog_msg = do
    prev_state_commit ← ask repo.find_stack_commit
    let state = state_after t stack.state prev_state_commit trans_head
    state_commit_id ← commit repo state false state_reflog_msg
    ask (repo.edit_references (ref_edits t prev_state_commit state_commit_id trans_head))
    if t.options.set_head
        then (do
          ask repo.find_branch
          pure (record stack { state = state; branch_head = trans_head }))
        else pure (record stack { state = state })

  -- What follows the critical part: the error of a halt, or the top is printed.
  unfoldable pub conclude : Option Error → Option PatchName → Stack → Exec W Stack
  conclude (some e) trans_top stack = raise e
  conclude none trans_top stack = do
    printed ← λ w. pure (repo.host.printed_top w) w
    if printed
        then pure tt
        else elim trans_top [ some top ↦ ask (repo.host.print (top_is top)) | none ↦ pure tt ]
    pure stack

  unfoldable pub execute : StackTransaction → Text → Exec W Stack
  unfolding updates_listed has_conflicts checkout_head write_state conclude
  execute t reflog_msg = do
    expect (if updates_listed t t.updated_patches then some tt else none)
    trans_head ← expect (head t)
    conflicts ← has_conflicts t.error
    stack ← if is_head_top t.stack then pure t.stack else log_external_mods repo t.stack none
    checkout_head t stack trans_head
    stack' ←
        map_err
          (write_state t stack trans_head
            (if conflicts then reflog_msg ++ codes " (CONFLICT)" else reflog_msg))
          (λ e. rollback repo t trans_head.tree_id e)
    conclude t.error (get_last? t.applied) stack'
