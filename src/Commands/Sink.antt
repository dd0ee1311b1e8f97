-- ===== src/Commands/Sink.antt =====
-- `stg sink`: src/cmd/sink.rs.
pub mod Sinks
use stgit.Prelude.{
  Text, ℕ, ◌+◌, Bool, true, false, not, List, [], ◌∷◌, ◌++◌, Option, none, some, text_Eq, ◌==◌,
  filter, take, drop, get_last?, position, contains, codes, one_if, if◌then◌else◌,
}
use stgit.Exec.{bail, Exec, pure, raise, ◌>>=◌, ◌>>◌}
use stgit.Patch.Name.{PatchName}
use stgit.Patch.Spec.{PatchLocator, PatchRange, RangeConstraint}
use stgit.Patch.Locator.{Libraries}
use stgit.Patch.Locator.Resolve.{resolve_name}
use stgit.Patch.Range
use stgit.Patch.Range.{constrain, resolve_names}
use stgit.Patch.Messages.{locator_message, range_message}
use stgit.Stack.Access.{LocationConstraint}
use stgit.Stack.State.{Stack, stack_access}
use stgit.Stack.Repository.{Repository, ask, expect}
use stgit.Stack.Commit.{check_head_top_mismatch}
use stgit.Stack.Transaction.Reorder.{reorder_patches}
use stgit.Stack.Transaction.Builder.{
  TransactionBuilder, setup_transaction, use_index_and_worktree, committer_date_is_author_date,
  with_output_stream,
}
use stgit.Stack.Transaction.Session.{session}
use stgit.Commands.{Statuses, Worktree, checked, chosen}

-- The arguments. `contains_keep` is what `contains_id("keep")` answers; `target` is the locator of
-- `target-above`, or else that of `target-below`.
pub record SinkMatches : Type 0 where
  pub nopush : Bool
  pub contains_keep : Bool
  pub committer_date_is_author_date : Bool
  pub is_above : Bool
  pub target : Option PatchLocator
  pub ranges : Option (List PatchRange)

unfoldable pub target_pos : Bool → Option PatchName → List PatchName → Option ℕ
target_pos is_above none remaining_applied = some 0
target_pos is_above (some target) remaining_applied =
    elim (position (λ pn. pn == target) remaining_applied) [
      | none ↦ none
      | some i ↦ some (i + one_if is_above)
    ]

-- The lists `applied` and `unapplied`. The position is at most the length of the remaining patches.
unfoldable pub sink_applied : Bool → ℕ → List PatchName → List PatchName → List PatchName
sink_applied true pos patches remaining_applied = take pos remaining_applied ++ patches
sink_applied false pos patches remaining_applied =
    take pos remaining_applied ++ (patches ++ drop pos remaining_applied)

unfoldable pub sink_unapplied : Bool → ℕ → List PatchName → List PatchName → List PatchName
sink_unapplied true pos remaining_applied remaining_unapplied =
    drop pos remaining_applied ++ remaining_unapplied
sink_unapplied false pos remaining_applied remaining_unapplied = remaining_unapplied

unfoldable pub sink_builder : SinkMatches → TransactionBuilder → TransactionBuilder
sink_builder matches builder = with_output_stream (
    committer_date_is_author_date (use_index_and_worktree builder true)
      matches.committer_date_is_author_date)

module _ {W : Type 0} (lib : Libraries) (repo : Repository W) (worktree : Worktree W) where
  not_applied_message : Bool → Range.Error lib.Prefix → Text
  not_applied_message is_above (Range.Error.patch_not_allowed pn group) =
      codes "cannot sink "
      ++ ((if is_above then codes "above" else codes "below")
          ++ (codes " `" ++ (pn ++ codes "` since it is not applied")))
  not_applied_message is_above e = range_message lib e

  unfoldable pub sink_target : Bool → Option PatchLocator → Stack → Exec W (Option PatchName)
  unfolding not_applied_message
  sink_target is_above none stack = pure none
  sink_target is_above (some loc) stack = do
    found ← chosen (λ e. codes "target: " ++ locator_message lib e) (resolve_name lib stack loc)
    pn ←
        chosen (not_applied_message is_above) (constrain lib stack found LocationConstraint.applied)
    pure (some pn)

  unfoldable pub sink_choice : Option (List PatchRange) → Stack → Exec W (List PatchName)
  sink_choice (some ranges) stack =
      chosen (range_message lib) (resolve_names lib stack RangeConstraint.all ranges)
  sink_choice none stack = elim (get_last? stack.state.applied) [
    | some patchname ↦ pure (patchname ∷ [])
    | none ↦ raise (bail (codes "no patches applied"))
  ]

  unfoldable pub check_target : Option PatchName → List PatchName → Exec W (Unit {0})
  check_target none patches = pure tt
  check_target (some target) patches =
      if contains patches target
      then raise
          (bail (codes "target patch `" ++ (target ++ codes "` may not also be a patch to sink")))
      else pure tt

  -- What follows the choice of the patches and of the target.
  unfoldable pub sink_patches :
      SinkMatches → Stack → Option PatchName → List PatchName → Exec W Stack
  unfolding sink_builder target_pos
  sink_patches matches stack opt_target patches = do
    let remaining_unapplied = filter (λ pn. not (contains patches pn)) stack.state.unapplied
    let remaining_applied = filter (λ pn. not (contains patches pn)) stack.state.applied
    pos ← expect (target_pos matches.is_above opt_target remaining_applied)
    builder ← expect (setup_transaction stack)
    session repo (sink_builder matches builder)
        (reorder_patches repo.host
          (some (sink_applied matches.nopush pos patches remaining_applied))
          (some (sink_unapplied matches.nopush pos remaining_applied remaining_unapplied)) none)
        (codes "sink")

  -- `run`, from the opened stack on.
  unfoldable pub run_sink : SinkMatches → Stack → Exec W Stack
  unfolding sink_target sink_choice check_target sink_patches
  run_sink matches stack = do
    ask worktree.check_repository_state
    statuses ← ask worktree.statuses
    checked statuses.check_conflicts
    check_head_top_mismatch repo stack
    if matches.contains_keep then pure tt else checked statuses.check_index_and_worktree_clean
    opt_target ← sink_target matches.is_above matches.target stack
    patches ← sink_choice matches.ranges stack
    check_target opt_target patches
    sink_patches matches stack opt_target patches
