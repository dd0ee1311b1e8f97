-- ===== src/Commands/Hide.antt =====
-- `stg hide` and `stg unhide`: src/cmd/hide.rs and src/cmd/unhide.rs.
pub mod Hides
use stgit.Prelude.{Text, Bool, true, not, List, ◌++◌, filter, codes}
use stgit.Exec.{Exec, ◌>>=◌, ◌>>◌}
use stgit.Patch.Name.{PatchName}
use stgit.Patch.Spec.{PatchRange, RangeConstraint}
use stgit.Patch.Locator.{Libraries}
use stgit.Patch.Range
use stgit.Patch.Range.{resolve_names}
use stgit.Patch.Messages.{range_message}
use stgit.Stack.Access.{is_hidden}
use stgit.Stack.State.{Stack, stack_access}
use stgit.Stack.Repository.{Repository, expect}
use stgit.Stack.Commit.{check_head_top_mismatch}
use stgit.Stack.Transaction.Reorder.{hide_patches, unhide_patches}
use stgit.Stack.Transaction.Builder.{
  TransactionBuilder, setup_transaction, allow_conflicts, with_output_stream,
}
use stgit.Stack.Transaction.Session.{session}
use stgit.Commands.{chosen}

-- Already hidden patches are not hidden again.
unfoldable pub hide_choice : Stack → List PatchName → List PatchName
hide_choice stack patches = filter (λ pn. not (is_hidden stack pn)) patches

unfoldable pub unhide_builder : TransactionBuilder → TransactionBuilder
unhide_builder builder = with_output_stream (allow_conflicts builder true)

module _ {W : Type 0} (lib : Libraries) (repo : Repository W) where
  -- `run` of hide, from the opened stack on.
  unfoldable pub run_hide : List PatchRange → Stack → Exec W Stack
  unfolding hide_choice
  run_hide ranges stack = do
    check_head_top_mismatch repo stack
    patches ← chosen (range_message lib) (resolve_names lib stack RangeConstraint.all ranges)
    builder ← expect (setup_transaction stack)
    session repo (with_output_stream builder) (hide_patches repo.host (hide_choice stack patches))
        (codes "hide")

  unfoldable pub not_hidden_message : Range.Error lib.Prefix → Text
  not_hidden_message (Range.Error.patch_not_allowed pn group) =
      codes "patch `" ++ (pn ++ codes "` is not hidden")
  not_hidden_message e = range_message lib e

  -- `run` of unhide, from the opened stack on.
  unfoldable pub run_unhide : List PatchRange → Stack → Exec W Stack
  unfolding unhide_builder not_hidden_message
  run_unhide range_specs stack = do
    check_head_top_mismatch repo stack
    patches ← chosen not_hidden_message (resolve_names lib stack RangeConstraint.hidden range_specs)
    builder ← expect (setup_transaction stack)
    session repo (unhide_builder builder) (unhide_patches repo.host patches) (codes "unhide")
