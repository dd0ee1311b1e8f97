-- ===== src/Commands/Delete.antt =====
-- `stg delete`: src/cmd/delete.rs.
pub mod Choice
pub mod Deletes
use stgit.Prelude.{
  Text, Bool, true, false, not, ◌&&◌, List, [], ◌∷◌, ◌++◌, reverse, Option, none, some, text_Eq,
  is_empty, any, filter, take, length, contains, get_last?, codes, if◌then◌else◌,
}
use stgit.Exec.{bail, Exec, pure, raise, ◌>>=◌, ◌>>◌}
use stgit.Host.{Host}
use stgit.Patch.Name.{PatchName}
use stgit.Patch.Outcome
use stgit.Patch.Outcome.{Outcome, map_err}
use stgit.Patch.Spec.{PatchRange, RangeConstraint}
use stgit.Patch.Locator.{Libraries}
use stgit.Patch.Range.{resolve_names}
use stgit.Patch.Messages.{range_message}
use stgit.Stack.Access.{all_patches}
use stgit.Stack.State.{Stack, stack_access}
use stgit.Stack.Repository.{Repository, ask, expect}
use stgit.Stack.Commit.{check_head_top_mismatch}
use stgit.Stack.Transaction.Defs.{M}
use stgit.Stack.Transaction.Lists.{delete_patches}
use stgit.Stack.Transaction.Push.{push_patches}
use stgit.Stack.Transaction.Builder.{
  TransactionBuilder, setup_transaction, use_index_and_worktree, allow_push_conflicts,
  with_output_stream,
}
use stgit.Stack.Transaction.Session.{session}
use stgit.Commands.{Statuses, Worktree, checked, chosen}

-- The arguments, with the configuration's answer on conflicts of pushes.
pub record DeleteMatches : Type 0 where
  pub branch : Bool
  pub allow_push_conflicts : Bool
  pub spill : Bool
  pub top : Bool
  pub ranges : Option (List PatchRange)
  pub all : Bool
  pub applied : Bool
  pub unapplied : Bool
  pub hidden : Bool

-- The patches of the lists that are asked for.
unfoldable pub delete_lists : DeleteMatches → Stack → List PatchName
delete_lists matches stack =
    (if matches.applied then stack.state.applied else [])
    ++ ((if matches.unapplied then stack.state.unapplied else [])
        ++ (if matches.hidden then stack.state.hidden else []))

unfoldable pub delete_top : Option PatchName → Outcome Text (List PatchName)
delete_top (some patchname) = Outcome.ok (patchname ∷ [])
delete_top none = Outcome.err (codes "no patches applied")

-- Not only the topmost patches are chosen.
unfoldable pub spills_below : List PatchName → Stack → Bool
spills_below patches stack =
    any (λ pn. not (contains patches pn)) (take (length patches) (reverse stack.state.applied))

unfoldable pub delete_builder : DeleteMatches → TransactionBuilder → TransactionBuilder
delete_builder matches builder = with_output_stream (
    allow_push_conflicts (use_index_and_worktree builder (not matches.branch && not matches.spill))
      matches.allow_push_conflicts)

-- The closure.
unfoldable pub delete_chosen : {W : Type 0} → Host W → List PatchName → M W (Unit {0})
delete_chosen host patches = do
  to_push ← delete_patches host (λ pn. contains patches pn)
  push_patches host to_push false

module _ (lib : Libraries) where
  unfoldable pub delete_given :
      DeleteMatches → Stack → Option (List PatchRange) → Outcome Text (List PatchName)
  unfolding delete_lists
  delete_given matches stack (some range_specs) =
      map_err (range_message lib)
        (resolve_names lib stack RangeConstraint.all_with_applied_boundary range_specs)
  delete_given matches stack none =
      Outcome.ok (if matches.all then all_patches stack else delete_lists matches stack)

  -- The patches to delete.
  unfoldable pub delete_choice : DeleteMatches → Stack → Outcome Text (List PatchName)
  unfolding delete_given delete_top
  delete_choice matches stack =
      if matches.top
      then delete_top (get_last? stack.state.applied)
      else delete_given matches stack matches.ranges

module _ {W : Type 0} (lib : Libraries) (repo : Repository W) (worktree : Worktree W) where
  -- What follows the check of `--spill`.
  unfoldable pub delete_checked : DeleteMatches → Stack → List PatchName → Exec W Stack
  unfolding delete_builder delete_chosen
  delete_checked matches stack patches = do
    ask worktree.check_repository_state
    statuses ← ask worktree.statuses
    checked statuses.check_conflicts
    check_head_top_mismatch repo stack
    if is_empty patches then pure stack else (do
      builder ← expect (setup_transaction stack)
      session repo (delete_builder matches builder) (delete_chosen repo.host patches)
          (codes "delete"))

  -- `run`, from the opened stack on.
  unfoldable pub run_delete : DeleteMatches → Stack → Exec W Stack
  unfolding delete_choice spills_below delete_checked
  run_delete matches stack = do
    patches ← chosen (λ message. message) (delete_choice lib matches stack)
    if matches.spill && spills_below patches stack
        then raise (bail (codes "can only spill topmost applied patches"))
        else delete_checked matches stack patches
