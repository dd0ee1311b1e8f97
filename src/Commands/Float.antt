-- ===== src/Commands/Float.antt =====
-- `stg float`: src/cmd/float.rs.
pub mod Floats
use stgit.Prelude.{
  Text, ℕ, ◌+◌, ◌<◌, ◌≤◌, Bool, true, false, not, ◌&&◌, ◌||◌, ◌≡◌, refl, sym, ap, ◌∙◌, arith, List,
  [], ◌∷◌, ◌++◌, Option, none, some, text_Eq, is_empty, any, filter, contains, contains-count,
  count, count-append, count-filter, codes, if◌then◌else◌, ltb, one_if,
}
use stgit.Exec.{bail, Exec, pure, raise, ◌>>=◌, ◌>>◌}
use stgit.Patch.Name.{PatchName}
use stgit.Patch.Outcome
use stgit.Patch.Outcome.{Outcome}
use stgit.Patch.Spec.{PatchRange, RangeConstraint, location_constraint}
use stgit.Patch.Locator.{Libraries}
use stgit.Patch.Range.{resolve_names}
use stgit.Patch.Range.Selected.{IsSelection, resolve_names-Selection}
use stgit.Patch.Messages.{range_message}
use stgit.Stack.Access.{is_applied, get_allowed, all_patches}
use stgit.Stack.State.{Stack, StackState, stack_access, state_access}
use stgit.Stack.Repository.{Repository, ask, expect}
use stgit.Stack.Commit.{check_head_top_mismatch}
use stgit.Stack.Transaction.Consistent.{IsWellFormed}
use stgit.Stack.Transaction.Reorder.{reorder_patches}
use stgit.Stack.Transaction.Builder.{
  TransactionBuilder, setup_transaction, use_index_and_worktree, committer_date_is_author_date,
  with_output_stream,
}
use stgit.Stack.Transaction.Execute.Yields.{
  Yields, Yields-mono, Yields-then, Yields-branch, Yields-raise,
}
use stgit.Stack.Transaction.Session.{session}
use stgit.Commands.{Statuses, Worktree, checked, chosen}
use stgit.Commands.Reordering.{kept, Placed, IsPlacement, reorder_session-Placed}

-- The arguments. The ranges are those of the command line or the lines of the series file.
pub record FloatMatches : Type 0 where
  pub noapply : Bool
  pub keep : Bool
  pub committer_date_is_author_date : Bool
  pub ranges : List PatchRange

-- The lists `applied` and `unapplied`.
unfoldable pub float_applied : Bool → List PatchName → Stack → List PatchName
float_applied true patches stack = filter (λ pn. not (contains patches pn)) stack.state.applied
float_applied false patches stack =
    filter (λ pn. not (contains patches pn)) stack.state.applied ++ patches

unfoldable pub float_unapplied : Bool → List PatchName → Stack → List PatchName
float_unapplied true patches stack =
    patches ++ filter (λ pn. not (contains patches pn)) stack.state.unapplied
float_unapplied false patches stack = filter (λ pn. not (contains patches pn)) stack.state.unapplied

unfoldable pub float_builder : FloatMatches → TransactionBuilder → TransactionBuilder
float_builder matches builder = with_output_stream (
    committer_date_is_author_date (use_index_and_worktree builder true)
      matches.committer_date_is_author_date)

module _ {W : Type 0} (lib : Libraries) (repo : Repository W) (worktree : Worktree W) where
  -- What follows the choice of the patches.
  unfoldable pub float_patches : FloatMatches → Stack → Statuses → List PatchName → Exec W Stack
  unfolding float_builder
  float_patches matches stack statuses patches =
      if is_empty patches then raise (bail (codes "no patches to float")) else (do
        if not matches.keep && (not matches.noapply || any (λ pn. is_applied stack pn) patches)
            then checked statuses.check_index_and_worktree_clean
            else pure tt
        builder ← expect (setup_transaction stack)
        session repo (float_builder matches builder)
            (reorder_patches repo.host (some (float_applied matches.noapply patches stack))
              (some (float_unapplied matches.noapply patches stack)) none)
            (codes "float"))

  -- `run`, from the opened stack on.
  unfoldable pub run_float : FloatMatches → Stack → Exec W Stack
  unfolding float_patches
  run_float matches stack = do
    ask worktree.check_repository_state
    statuses ← ask worktree.statuses
    checked statuses.check_conflicts
    check_head_top_mismatch repo stack
    patches ←
        chosen (range_message lib) (resolve_names lib stack RangeConstraint.visible matches.ranges)
    float_patches matches stack statuses patches
