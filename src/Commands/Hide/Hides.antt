-- ===== src/Commands/Hide/Hides.antt =====
-- What `stg hide` and `stg unhide` of src/cmd leave.
use stgit.Prelude.{
  Text, not, ◌≡◌, subst, ◌∙◌, arith, List, ◌++◌, text_Eq, filter, contains, contains-count,
  count-filter, codes,
}
use stgit.Patch.Name.{PatchName}
use stgit.Patch.Outcome.{Outcome}
use stgit.Patch.Spec.{PatchRange, RangeConstraint, location_constraint}
use stgit.Patch.Locator.{Libraries}
use stgit.Patch.Range.{resolve_names}
use stgit.Patch.Range.Selected.{IsSelection, resolve_names-Selection}
use stgit.Patch.Messages.{range_message}
use stgit.Stack.Access.{all_patches, get_allowed, is_hidden}
use stgit.Stack.State.{Stack, stack_access, state_access}
use stgit.Stack.Repository.{Repository}
use stgit.Stack.Transaction.Defs.{TransactionOptions, M, has_patch}
use stgit.Stack.Transaction.Ends.{Ends}
use stgit.Stack.Transaction.Consistent.{IsWellFormed, count_all}
use stgit.Stack.Transaction.Reorder.{hide_patches, unhide_patches}
use stgit.Stack.Transaction.Reorder.Whole.{Arranges}
use stgit.Stack.Transaction.Reorder.Hidden.{
  Hideable, Unhideable, hide_patches-Ends, unhide_patches-Ends,
}
use stgit.Stack.Transaction.Builder.{allow_conflicts, TransactionBuilder, begin, with_output_stream}
use stgit.Stack.Transaction.Execute.Yields.{
  Yields, Yields-mono, Yields-then, Yields-bind, Yields-expect,
}
use stgit.Stack.Transaction.Session.{session, session-Commits, begin-IsConsistent}
use stgit.Commands.Reordering.{kept, Placed, chosen-Yields, setup_transaction-stack}
use stgit.Commands.Hide.{hide_choice, unhide_builder, run_hide, run_unhide, not_hidden_message}

-- The named patches before the hidden ones, and in no other list.
abbrev pub IsHiding : List PatchName → Stack → Stack → Type 0
IsHiding pns before after =
    Placed (kept pns before.state.applied) (kept pns before.state.unapplied)
      (pns ++ before.state.hidden) after

-- The named patches behind the unapplied ones, and not hidden.
abbrev pub IsUnhiding : List PatchName → Stack → Stack → Type 0
IsUnhiding pns before after =
    Placed before.state.applied (before.state.unapplied ++ pns) (kept pns before.state.hidden) after

begin-Hideable :
    (pns : List PatchName) (stack : Stack) (options : TransactionOptions)
    → IsWellFormed stack.state
    → IsSelection (all_patches stack) pns
    → Hideable (begin stack options) (hide_choice stack pns)
unfolding hide_choice has_patch
begin-Hideable pns stack options v sel = record {
  counted = λ a. ground (
    arith,
    sel a,
    v.counted a,
    (begin-IsConsistent stack options v).counted a,
    count_all a (begin stack options),
    contains-count stack.state.hidden a,
    count-filter a (λ pn. not (contains stack.state.hidden pn)) pns,
  );
}

begin-Unhideable :
    (pns : List PatchName) (stack : Stack) (options : TransactionOptions)
    → IsSelection stack.state.hidden pns
    → Unhideable (begin stack options) pns
begin-Unhideable pns stack options sel = record { counted = λ a. (sel a).1 }

module _ {W : Type 0} (repo : Repository W) where
  -- A session whose method arranges the lists leaves them so.
  arranging-Placed :
      (builder : TransactionBuilder) (f : M W (Unit {0})) (reflog_msg : Text)
      (applied unapplied hidden : List PatchName)
      → Ends f
          (begin builder.stack builder.options)
          (Arranges applied unapplied hidden (begin builder.stack builder.options))
      → Yields (session repo builder f reflog_msg) (Placed applied unapplied hidden)
  arranging-Placed builder f reflog_msg applied unapplied hidden h =
      Yields-mono _ _
        (λ after (t, q, c). record {
          applied_eq = c.applied_eq ∙ q.applied_eq;
          unapplied_eq = c.unapplied_eq ∙ q.unapplied_eq;
          hidden_eq = c.hidden_eq ∙ q.hidden_eq;
          well_formed = c.well_formed;
        })
        (session-Commits repo builder f reflog_msg _ h (λ u q. q.consistent))

  hide_session-IsHiding :
      (builder : TransactionBuilder) (pns : List PatchName)
      → IsWellFormed builder.stack.state
      → IsSelection (all_patches builder.stack) pns
      → Yields
          (session repo builder
            (hide_patches repo.host (hide_choice builder.stack pns))
            (codes "hide"))
          (IsHiding (hide_choice builder.stack pns) builder.stack)
  hide_session-IsHiding builder pns v sel = arranging-Placed builder _ _ _ _ _ (
      hide_patches-Ends repo.host (hide_choice builder.stack pns)
        (begin builder.stack builder.options) (begin-IsConsistent builder.stack builder.options v)
        (begin-Hideable pns builder.stack builder.options v sel))

  unhide_session-IsUnhiding :
      (builder : TransactionBuilder) (pns : List PatchName)
      → IsWellFormed builder.stack.state
      → IsSelection builder.stack.state.hidden pns
      → Yields
          (session repo builder (unhide_patches repo.host pns) (codes "unhide"))
          (IsUnhiding pns builder.stack)
  unhide_session-IsUnhiding builder pns v sel = arranging-Placed builder _ _ _ _ _ (
      unhide_patches-Ends repo.host pns (begin builder.stack builder.options)
        (begin-IsConsistent builder.stack builder.options v)
        (begin-Unhideable pns builder.stack builder.options sel))

module _ {W : Type 0} (lib : Libraries) (repo : Repository W) where
  -- Where the state of the opened stack is well formed, `stg hide`, in every world where it returns
  -- a stack, puts those patches that its ranges resolve to and that are not hidden yet before the
  -- hidden ones, in the order of the ranges, and takes them off the applied and the unapplied ones;
  -- nothing else moves, and the state is well formed.
  pub run_hide-IsHiding :
      (ranges : List PatchRange) (stack : Stack)
      → IsWellFormed stack.state
      → Yields (run_hide lib repo ranges stack) (λ after.
        (pns : List PatchName) × (resolve_names lib stack RangeConstraint.all ranges
          ≡ Outcome.ok pns)
        × IsHiding (filter (λ pn. not (is_hidden stack pn)) pns) stack after)
  unfolding run_hide hide_choice location_constraint get_allowed
  run_hide-IsHiding ranges stack v = Yields-then _ _ (λ _.
      Yields-bind _ _
        (chosen-Yields (range_message lib) (resolve_names lib stack RangeConstraint.all ranges))
        (λ pns e.
          Yields-bind _ _ (Yields-expect _ _ (λ builder h. setup_transaction-stack stack builder h))
            (λ builder h.
              Yields-mono _ _ (λ after q. (pns, e, q))
                (subst
                  (λ k.
                    IsWellFormed k.state
                    → IsSelection (all_patches k) pns
                    → Yields
                        (session repo (with_output_stream builder)
                          (hide_patches repo.host (hide_choice k pns)) (codes "hide"))
                        (IsHiding (hide_choice k pns) k))
                  h (hide_session-IsHiding repo (with_output_stream builder) pns) v
                  (resolve_names-Selection lib stack RangeConstraint.all ranges pns e)))))

  -- Where the state of the opened stack is well formed, `stg unhide`, in every world where it
  -- returns a stack, takes the patches that its ranges resolve to off the hidden ones and puts them
  -- behind the unapplied ones, in the order of the ranges; nothing else moves, and the state is
  -- well formed.
  pub run_unhide-IsUnhiding :
      (ranges : List PatchRange) (stack : Stack)
      → IsWellFormed stack.state
      → Yields (run_unhide lib repo ranges stack) (λ after.
        (pns : List PatchName) × (resolve_names lib stack RangeConstraint.hidden ranges
          ≡ Outcome.ok pns)
        × IsUnhiding pns stack after)
  unfolding run_unhide unhide_builder location_constraint get_allowed allow_conflicts
  run_unhide-IsUnhiding ranges stack v = Yields-then _ _ (λ _.
      Yields-bind _ _
        (chosen-Yields (not_hidden_message lib repo)
          (resolve_names lib stack RangeConstraint.hidden ranges))
        (λ pns e.
          Yields-bind _ _ (Yields-expect _ _ (λ builder h. setup_transaction-stack stack builder h))
            (λ builder h.
              Yields-mono _ _ (λ after q. (pns, e, q))
                (subst
                  (λ k.
                    IsWellFormed k.state
                    → IsSelection k.state.hidden pns
                    → Yields
                        (session repo (unhide_builder builder) (unhide_patches repo.host pns)
                          (codes "unhide"))
                        (IsUnhiding pns k))
                  h (unhide_session-IsUnhiding repo (unhide_builder builder) pns) v
                  (resolve_names-Selection lib stack RangeConstraint.hidden ranges pns e)))))
