-- ===== src/Commands/Pop.antt =====
-- `stg pop`: src/cmd/pop.rs. The set of the patches to pop is a list: only membership is asked.
pub mod Pops
use stgit.Prelude.{
  Text, ℕ, zero, suc, ◌-◌, min, Bool, true, false, not, ◌&&◌, ◌||◌, List, [], ◌∷◌, ◌++◌, reverse,
  Option, none, some, text_Eq, ◌==◌, is_empty, filter, take, length, contains, codes, ltb, ℤ, pos,
  negsuc, if◌then◌else◌,
}
use stgit.Exec.{bail, panic, Exec, pure, raise, ◌>>=◌, ◌>>◌}
use stgit.Patch.Name.{PatchName}
use stgit.Patch.Spec.{PatchRange, RangeConstraint}
use stgit.Patch.Locator.{Libraries}
use stgit.Patch.Range
use stgit.Patch.Range.{resolve_names}
use stgit.Patch.Messages.{range_message}
use stgit.Stack.Access.{is_unapplied}
use stgit.Stack.State.{Stack, stack_access}
use stgit.Stack.Repository.{Repository, ask, expect}
use stgit.Stack.Commit.{check_head_top_mismatch}
use stgit.Stack.Transaction.Reorder.{reorder_patches, names_eq}
use stgit.Stack.Transaction.Builder.{
  TransactionBuilder, setup_transaction, use_index_and_worktree, with_output_stream,
}
use stgit.Stack.Transaction.Session.{session}
use stgit.Commands.{Statuses, Worktree, checked, chosen}

pub record PopMatches : Type 0 where
  pub number : Option ℤ
  pub all : Bool
  pub ranges : Option (List PatchRange)
  pub keep : Bool
  pub spill : Bool

-- `num_to_take`; with `none` there is nothing to do.
unfoldable pub num_to_take : ℤ → ℕ → Option ℕ
num_to_take (pos n) num_applied = some (min n num_applied)
num_to_take (negsuc n) num_applied =
    if ltb (suc n) num_applied then some (num_applied - suc n) else none

-- The loop over the applied patches: `new_unapplied` and `new_applied`.
unfoldable pub pop_split : List PatchName → List PatchName → List PatchName × List PatchName
pop_split patches [] = ([], [])
pop_split patches (pn ∷ rest) = elim (contains patches pn) [
  | true ↦ let r = pop_split (filter (λ x. not (x == pn)) patches) rest in (pn ∷ r.0, r.1)
  | false ↦ let r = pop_split patches rest in (r.0, pn ∷ r.1)
]

-- `if Some(0) == opt_number`
abbrev pub is_zero : Option ℤ → Bool
is_zero (some (pos zero)) = true
is_zero _ = false

unfoldable pub pop_builder : PopMatches → TransactionBuilder → TransactionBuilder
pop_builder matches builder =
    with_output_stream (use_index_and_worktree builder (not matches.spill))

module _ {W : Type 0} (lib : Libraries) (repo : Repository W) (worktree : Worktree W) where
  not_allowed_message : Stack → Range.Error lib.Prefix → Text
  not_allowed_message stack (Range.Error.patch_not_allowed pn group) =
      if is_unapplied stack pn
      then codes "patch `" ++ (pn ++ codes "` is already unapplied")
      else range_message lib (Range.Error.patch_not_allowed pn group)
  not_allowed_message stack e = range_message lib e

  unfoldable pub topmost : Stack → Option ℕ → Exec W (Option (List PatchName))
  topmost stack none = pure none
  topmost stack (some n) = pure (some (take n (reverse stack.state.applied)))

  -- The patches to pop, without `--all`.
  unfoldable pub pop_numbered :
      Option ℤ → Option (List PatchRange) → Stack → Exec W (Option (List PatchName))
  unfolding not_allowed_message num_to_take topmost
  pop_numbered (some number) ranges stack =
      topmost stack (num_to_take number (length stack.state.applied))
  pop_numbered none (some ranges) stack = do
    patches ←
        chosen (not_allowed_message stack) (resolve_names lib stack RangeConstraint.applied ranges)
    pure (some patches)
  pop_numbered none none stack = topmost stack (some 1)

  unfoldable pub pop_choice : PopMatches → Stack → Exec W (Option (List PatchName))
  unfolding pop_numbered
  pop_choice matches stack =
      if matches.all
      then pure (some stack.state.applied)
      else pop_numbered matches.number matches.ranges stack

  -- What follows the choice of the patches.
  unfoldable pub pop_chosen : PopMatches → Stack → List PatchName → Exec W Stack
  unfolding pop_split pop_builder
  pop_chosen matches stack patches = if is_empty patches then raise panic else (do
    ask worktree.check_repository_state
    statuses ← ask worktree.statuses
    checked statuses.check_conflicts
    check_head_top_mismatch repo stack
    if not matches.keep && not matches.spill
        then checked statuses.check_index_and_worktree_clean
        else pure tt
    let new_unapplied = (pop_split patches stack.state.applied).0
    let new_applied = (pop_split patches stack.state.applied).1
    let topmost_applied = reverse (take (length new_unapplied) (reverse stack.state.applied))
    if matches.spill && not (names_eq new_unapplied topmost_applied)
        then raise (bail (codes "only topmost patches may be spilled"))
        else pure tt
    builder ← expect (setup_transaction stack)
    session repo (pop_builder matches builder)
        (reorder_patches repo.host (some new_applied)
          (some (new_unapplied ++ stack.state.unapplied)) none)
        (codes "pop"))

  pop_found : PopMatches → Stack → Option (List PatchName) → Exec W Stack
  pop_found matches stack none = pure stack
  pop_found matches stack (some patches) = pop_chosen matches stack patches

  -- `run`, from the opened stack on; the stack comes back as it is where there is nothing to do.
  unfoldable pub run_pop : PopMatches → Stack → Exec W Stack
  unfolding pop_choice pop_chosen pop_found
  run_pop matches stack =
      if is_zero matches.number
      then pure stack
      else if is_empty stack.state.applied
      then raise (bail (codes "no patches applied"))
      else (do found ← pop_choice matches stack; pop_found matches stack found)
