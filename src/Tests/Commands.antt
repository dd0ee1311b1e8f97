-- ===== src/Tests/Commands.antt =====
-- Commands on the small stack.
use stgit.Prelude.{
  reverse, refl, not, filter, none, pos, ◌⊎◌, true, false, ◌≡◌, List, [], ◌∷◌, Option, some,
}
use stgit.Host.{done}
use stgit.Patch.Outcome
use stgit.Patch.Name.{PatchName}
use stgit.Patch.Spec.{PatchId, PatchLocator, PatchRange, RangeConstraint}
use stgit.Patch.Locator.Resolve.{resolve_name}
use stgit.Patch.Range.{resolve_names}
use stgit.Stack.State.{stack_access}
use stgit.Stack.Transaction.Execute.Yields.{Yields}
use stgit.Commands.{Worktree}
use stgit.Commands.Float.{FloatMatches, run_float}
use stgit.Commands.Float.Floats.{IsFloated, run_float-IsFloated}
use stgit.Commands.Sink.{SinkMatches, run_sink}
use stgit.Commands.Sink.Sinks.{Sunk, IsTarget, IsChoice, run_sink-Sunk}
use stgit.Commands.Goto.{GotoMatches, run_goto}
use stgit.Commands.Goto.Arrives.{Arrived, run_goto-Arrived}
use stgit.Commands.Pop.{PopMatches, run_pop}
use stgit.Commands.Pop.Pops.{AsksForNone, IsPopChoice, IsPopped, run_pop-IsPopped}
use stgit.Commands.Hide.{run_hide, run_unhide}
use stgit.Commands.Hide.Hides.{IsHiding, IsUnhiding, run_hide-IsHiding, run_unhide-IsUnhiding}
use stgit.Stack.Access.{is_hidden}
use stgit.Commands.Push.{PushMatches, run_push}
use stgit.Commands.Push.Choice.{IsPushChoice}
use stgit.Commands.Push.Pushes.{IsPushed, run_push-IsPushed}
use stgit.Commands.Delete.{DeleteMatches, run_delete}
use stgit.Commands.Delete.Choice.{IsDeleteChoice, AreTopmost}
use stgit.Commands.Delete.Deletes.{IsDeletion, run_delete-IsDeletion}
use stgit.Tests.Data.{b, stack, a, c, e}
use stgit.Tests.Locators.{lib}
use stgit.Tests.Sessions.{quiet_repo, state-IsWellFormed}

abbrev worktree : Worktree (Unit {0})
worktree = record {
  check_repository_state = λ w. (done tt, w);
  statuses = λ w.
      (done (record { check_conflicts = done tt; check_index_and_worktree_clean = done tt }), w);
}

abbrev named : PatchName → PatchLocator
named pn = record { id = PatchId.name pn; offsets = [] }

-- `stg float a c`
abbrev float_matches : FloatMatches
float_matches = record {
  noapply = false;
  keep = false;
  committer_date_is_author_date = false;
  ranges = PatchRange.single (named a) ∷ PatchRange.single (named c) ∷ [];
}

run_float-IsFloated_example :
    Yields (run_float lib quiet_repo worktree float_matches stack) (λ after.
      (pns : List PatchName) × (resolve_names lib stack RangeConstraint.visible float_matches.ranges
        ≡ Outcome.ok pns)
      × IsFloated false pns stack after)
run_float-IsFloated_example =
    run_float-IsFloated lib quiet_repo worktree float_matches stack state-IsWellFormed

-- `stg sink --to a c`
abbrev sink_matches : SinkMatches
sink_matches = record {
  nopush = false;
  contains_keep = true;
  committer_date_is_author_date = false;
  is_above = false;
  target = some (named a);
  ranges = some (PatchRange.single (named c) ∷ []);
}

run_sink-Sunk_example : Yields (run_sink lib quiet_repo worktree sink_matches stack) (λ after.
    (target : Option PatchName) × (pns : List PatchName) × IsTarget lib quiet_repo worktree
      (some (named a))
      stack
      target
    × IsChoice lib quiet_repo worktree (some (PatchRange.single (named c) ∷ [])) stack pns
    × Sunk false false target pns stack after)
run_sink-Sunk_example = run_sink-Sunk lib quiet_repo worktree sink_matches stack state-IsWellFormed

-- `stg goto c`
abbrev goto_matches : GotoMatches
goto_matches = record {
  keep = false;
  merged = false;
  allow_push_conflicts = true;
  committer_date_is_author_date = false;
  patch = named c;
}

run_goto-Arrived_example : Yields (run_goto lib quiet_repo worktree goto_matches stack) (λ after.
    (pn : PatchName) × (resolve_name lib stack (named c) ≡ Outcome.ok pn) × Arrived pn stack after)
run_goto-Arrived_example =
    run_goto-Arrived lib quiet_repo worktree goto_matches stack state-IsWellFormed

-- `stg pop -n 1`
abbrev pop_matches : PopMatches
pop_matches = record {
  number = some (pos 1);
  all = false;
  ranges = none;
  keep = false;
  spill = false;
}

run_pop-IsPopped_example : Yields (run_pop lib quiet_repo worktree pop_matches stack) (λ after.
    (AsksForNone pop_matches stack × (after ≡ stack))
    ⊎ ((pns : List PatchName) × IsPopChoice lib pop_matches stack pns × IsPopped pns stack after))
run_pop-IsPopped_example =
    run_pop-IsPopped lib quiet_repo worktree pop_matches stack state-IsWellFormed

-- `stg hide a c`
abbrev hide_ranges : List PatchRange
hide_ranges = PatchRange.single (named a) ∷ PatchRange.single (named c) ∷ []

run_hide-IsHiding_example : Yields (run_hide lib quiet_repo hide_ranges stack) (λ after.
    (pns : List PatchName) × (resolve_names lib stack RangeConstraint.all hide_ranges
      ≡ Outcome.ok pns)
    × IsHiding (filter (λ pn. not (is_hidden stack pn)) pns) stack after)
run_hide-IsHiding_example = run_hide-IsHiding lib quiet_repo hide_ranges stack state-IsWellFormed

-- `stg unhide e`
abbrev unhide_ranges : List PatchRange
unhide_ranges = PatchRange.single (named e) ∷ []

run_unhide-IsUnhiding_example : Yields (run_unhide lib quiet_repo unhide_ranges stack) (λ after.
    (pns : List PatchName) × (resolve_names lib stack RangeConstraint.hidden unhide_ranges
      ≡ Outcome.ok pns)
    × IsUnhiding pns stack after)
run_unhide-IsUnhiding_example =
    run_unhide-IsUnhiding lib quiet_repo unhide_ranges stack state-IsWellFormed

-- `stg delete --spill b`
abbrev delete_matches : DeleteMatches
delete_matches = record {
  branch = false;
  allow_push_conflicts = true;
  spill = true;
  top = false;
  ranges = some (PatchRange.single (named b) ∷ []);
  all = false;
  applied = false;
  unapplied = false;
  hidden = false;
}

run_delete-IsDeletion_example :
    Yields (run_delete lib quiet_repo worktree delete_matches stack) (λ after.
      (pns : List PatchName) × IsDeleteChoice lib delete_matches stack pns
      × (true ≡ true → AreTopmost pns stack.state.applied)
      × IsDeletion pns stack after)
run_delete-IsDeletion_example =
    run_delete-IsDeletion lib quiet_repo worktree delete_matches stack state-IsWellFormed

-- `stg push --reverse -n 2`
abbrev push_matches : PushMatches
push_matches = record {
  number = some (pos 2);
  allow_push_conflicts = true;
  ranges = none;
  all = false;
  reversed = true;
  noapply = false;
  set_tree = false;
  merged = false;
  keep = false;
  committer_date_is_author_date = false;
}

run_push-IsPushed_example : Yields (run_push lib quiet_repo worktree push_matches stack) (λ after.
    ((push_matches.number ≡ some (pos 0)) × (after ≡ stack))
    ⊎ ((pns : List PatchName) × IsPushChoice lib push_matches none stack pns
        × IsPushed false (reverse pns) stack after))
run_push-IsPushed_example =
    run_push-IsPushed lib quiet_repo worktree push_matches stack refl state-IsWellFormed
