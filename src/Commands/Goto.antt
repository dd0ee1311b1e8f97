-- ===== src/Commands/Goto.antt =====
-- `stg goto`: src/cmd/goto.rs.
pub mod Arrives
use stgit.Prelude.{
  Text, ℕ, suc, Bool, true, false, List, [], ◌∷◌, ◌++◌, Option, none, some, text_Eq, ◌==◌, take,
  drop, position, codes, if◌then◌else◌,
}
use stgit.Exec.{Exec, pure, ◌>>=◌, ◌>>◌}
use stgit.Host.{Host}
use stgit.Patch.Name.{PatchName}
use stgit.Patch.Spec.{PatchLocator}
use stgit.Patch.Locator.{Libraries}
use stgit.Patch.Locator.Resolve.{resolve_name}
use stgit.Patch.Range.{constrain}
use stgit.Patch.Messages.{locator_message, range_message}
use stgit.Stack.Access.{LocationConstraint}
use stgit.Stack.State.{Stack, stack_access}
use stgit.Stack.Repository.{Repository, ask, expect}
use stgit.Stack.Commit.{check_head_top_mismatch}
use stgit.Stack.Transaction.Defs.{StackTransaction, M, get, unwrap}
use stgit.Stack.Transaction.Push.{push_patches}
use stgit.Stack.Transaction.Reorder.{reorder_patches}
use stgit.Stack.Transaction.Builder.{
  TransactionBuilder, setup_transaction, use_index_and_worktree, allow_push_conflicts,
  committer_date_is_author_date, with_output_stream,
}
use stgit.Stack.Transaction.Session.{session}
use stgit.Commands.{Statuses, Worktree, checked, chosen}

-- The arguments, with the configuration's answer on conflicts of pushes.
pub record GotoMatches : Type 0 where
  pub keep : Bool
  pub merged : Bool
  pub allow_push_conflicts : Bool
  pub committer_date_is_author_date : Bool
  pub patch : PatchLocator

module _ {W : Type 0} (host : Host W) where
  -- The closure, from the position among the applied patches on.
  unfoldable pub goto_from : PatchName → Bool → StackTransaction → Option ℕ → M W (Unit {0})
  goto_from patchname merged trans (some pos) =
      reorder_patches host (some (take (suc pos) trans.applied))
        (some (drop (suc pos) trans.applied ++ trans.unapplied)) none
  goto_from patchname merged trans none = do
    pos ← unwrap (position (λ pn. pn == patchname) trans.unapplied)
    push_patches host (take (suc pos) trans.unapplied) merged

  unfoldable pub goto_patch : PatchName → Bool → M W (Unit {0})
  unfolding goto_from
  goto_patch patchname merged = do
    trans ← get
    goto_from patchname merged trans (position (λ pn. pn == patchname) trans.applied)

unfoldable pub goto_builder : GotoMatches → TransactionBuilder → TransactionBuilder
goto_builder matches builder = with_output_stream (
    committer_date_is_author_date
      (allow_push_conflicts (use_index_and_worktree builder true) matches.allow_push_conflicts)
      matches.committer_date_is_author_date)

module _ {W : Type 0} (lib : Libraries) (repo : Repository W) (worktree : Worktree W) where
  -- `run`, from the opened stack on.
  unfoldable pub run_goto : GotoMatches → Stack → Exec W Stack
  unfolding goto_patch goto_builder
  run_goto matches stack = do
    ask worktree.check_repository_state
    statuses ← ask worktree.statuses
    checked statuses.check_conflicts
    check_head_top_mismatch repo stack
    if matches.keep then pure tt else checked statuses.check_index_and_worktree_clean
    found ← chosen (locator_message lib) (resolve_name lib stack matches.patch)
    patchname ← chosen (range_message lib) (constrain lib stack found LocationConstraint.visible)
    builder ← expect (setup_transaction stack)
    session repo (goto_builder matches builder) (goto_patch repo.host patchname matches.merged)
        (codes "goto")
