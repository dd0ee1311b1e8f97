-- ===== src/Commands/Push.antt =====
-- `stg push`: src/cmd/push.rs.
pub mod Choice
pub mod Pushes
use stgit.Prelude.{
  Text, ℕ, suc, ◌-◌, min, Bool, true, false, not, ◌&&◌, List, [], ◌∷◌, ◌++◌, reverse, Option, none,
  some, text_Eq, is_empty, filter, take, length, contains, codes, ltb, ℤ, pos, negsuc,
  if◌then◌else◌,
}
use stgit.Exec.{panic, Exec, pure, raise, ◌>>=◌, ◌>>◌}
use stgit.Host.{Host}
use stgit.Patch.Name.{PatchName}
use stgit.Patch.Outcome
use stgit.Patch.Outcome.{Outcome, map_err}
use stgit.Patch.Spec.{PatchRange, RangeConstraint}
use stgit.Patch.Locator.{Libraries}
use stgit.Patch.Range
use stgit.Patch.Range.{resolve_names}
use stgit.Patch.Messages.{range_message}
use stgit.Stack.Access.{is_applied}
use stgit.Stack.State.{Stack, stack_access}
use stgit.Stack.Repository.{Repository, ask, expect}
use stgit.Stack.Commit.{check_head_top_mismatch}
use stgit.Stack.Transaction.Defs.{StackTransaction, M, get}
use stgit.Stack.Transaction.Push.{push_patches, push_tree_patches}
use stgit.Stack.Transaction.Reorder.{reorder_patches}
use stgit.Stack.Transaction.Builder.{
  TransactionBuilder, setup_transaction, use_index_and_worktree, allow_push_conflicts,
  committer_date_is_author_date, with_output_stream,
}
use stgit.Stack.Transaction.Session.{session}
use stgit.Commands.{Statuses, Worktree, checked, chosen}
use stgit.Commands.Pop.{is_zero}

-- The arguments, with the configuration's answer on conflicts of pushes.
pub record PushMatches : Type 0 where
  pub number : Option ℤ
  pub allow_push_conflicts : Bool
  pub ranges : Option (List PatchRange)
  pub all : Bool
  pub reversed : Bool
  pub noapply : Bool
  pub set_tree : Bool
  pub merged : Bool
  pub keep : Bool
  pub committer_date_is_author_date : Bool

-- How many of the unapplied patches a number asks for.
unfoldable pub push_count : ℤ → ℕ → ℕ
push_count (pos n) num_unapplied = min n num_unapplied
push_count (negsuc n) num_unapplied = if ltb (suc n) num_unapplied then num_unapplied - suc n else 0

unfoldable pub push_numbered : Option ℤ → List PatchName → List PatchName
unfolding push_count
push_numbered (some number) unapplied = take (push_count number (length unapplied)) unapplied
push_numbered none unapplied = take 1 unapplied

unfoldable pub in_order : Bool → List PatchName → List PatchName
in_order true patches = reverse patches
in_order false patches = patches

-- The unapplied patches with `noapply`.
abbrev pub push_unapplied : List PatchName → List PatchName → List PatchName
push_unapplied patches unapplied = patches ++ filter (λ pn. not (contains patches pn)) unapplied

unfoldable pub push_builder : PushMatches → TransactionBuilder → TransactionBuilder
push_builder matches builder = with_output_stream (
    committer_date_is_author_date
      (allow_push_conflicts (use_index_and_worktree builder true) matches.allow_push_conflicts)
      matches.committer_date_is_author_date)

module _ {W : Type 0} (host : Host W) where
  -- The closure.
  unfoldable pub push_chosen : PushMatches → List PatchName → M W (Unit {0})
  push_chosen matches patches = do
    trans ← get
    if matches.set_tree
        then push_tree_patches host patches
        else if matches.noapply
        then reorder_patches host none (some (push_unapplied patches trans.unapplied)) none
        else push_patches host patches matches.merged

module _ (lib : Libraries) where
  unfoldable pub already_applied_message : Stack → Range.Error lib.Prefix → Text
  already_applied_message stack (Range.Error.patch_not_allowed pn group) =
      if is_applied stack pn
      then codes "patch `" ++ (pn ++ codes "` is already applied")
      else range_message lib (Range.Error.patch_not_allowed pn group)
  already_applied_message stack e = range_message lib e

  -- The patches to push.
  unfoldable pub push_choice :
      PushMatches → Stack → Option (List PatchRange) → Outcome Text (List PatchName)
  unfolding already_applied_message push_numbered
  push_choice matches stack (some range_specs) =
      map_err (already_applied_message stack)
        (resolve_names lib stack RangeConstraint.unapplied range_specs)
  push_choice matches stack none =
      if is_empty stack.state.unapplied
      then Outcome.err (codes "no unapplied patches")
      else if matches.all
      then Outcome.ok stack.state.unapplied
      else Outcome.ok (push_numbered matches.number stack.state.unapplied)

module _ {W : Type 0} (lib : Libraries) (repo : Repository W) (worktree : Worktree W) where
  -- What follows the assertion.
  unfoldable pub push_checked : PushMatches → Stack → List PatchName → Exec W Stack
  unfolding push_builder push_chosen in_order
  push_checked matches stack patches = do
    ask worktree.check_repository_state
    statuses ← ask worktree.statuses
    checked statuses.check_conflicts
    check_head_top_mismatch repo stack
    if not matches.keep && not matches.noapply
        then checked statuses.check_index_and_worktree_clean
        else pure tt
    builder ← expect (setup_transaction stack)
    session repo (push_builder matches builder)
        (push_chosen repo.host matches (in_order matches.reversed patches)) (codes "push")

  -- `run`, from the opened stack on.
  unfoldable pub run_push : PushMatches → Stack → Exec W Stack
  unfolding push_choice push_checked
  run_push matches stack = if is_zero matches.number then pure stack else (do
    patches ← chosen (λ message. message) (push_choice lib matches stack matches.ranges)
    if is_empty patches then raise panic else push_checked matches stack patches)
