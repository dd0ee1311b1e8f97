-- ===== src/Commands/Float/Floats.antt =====
-- What `stg float` of src/cmd/float.rs leaves.
use stgit.Prelude.{
  ◌<◌, Bool, true, false, not, ◌≡◌, subst, arith, List, ◌++◌, none, some, text_Eq, is_empty,
  contains, contains-count, count, count-append, count-filter, codes,
}
use stgit.Patch.Name.{PatchName}
use stgit.Patch.Outcome.{Outcome}
use stgit.Patch.Spec.{RangeConstraint, location_constraint}
use stgit.Patch.Locator.{Libraries}
use stgit.Patch.Range.{resolve_names}
use stgit.Patch.Range.Selected.{IsSelection, resolve_names-Selection}
use stgit.Patch.Messages.{range_message}
use stgit.Stack.Access.{get_allowed}
use stgit.Stack.State.{Stack, stack_access, state_access}
use stgit.Stack.Repository.{Repository}
use stgit.Stack.Transaction.Consistent.{IsWellFormed}
use stgit.Stack.Transaction.Reorder.{reorder_patches}
use stgit.Stack.Transaction.Builder.{TransactionBuilder}
use stgit.Stack.Transaction.Execute.Yields.{
  Yields, Yields-mono, Yields-then, Yields-bind, Yields-branch, Yields-raise, Yields-expect,
}
use stgit.Stack.Transaction.Session.{session}
use stgit.Commands.{Statuses, Worktree}
use stgit.Commands.Reordering.{
  kept, kept_all, Placed, IsPlacement, builder_session-Placed, count_parts, chosen-Yields,
  setup_transaction-stack,
}
use stgit.Commands.Float.{
  FloatMatches, float_applied, float_unapplied, float_builder, float_patches, run_float,
}

-- The patches behind the other applied ones, or, not to be applied, before the other unapplied ones.
abbrev pub IsFloated : Bool → List PatchName → Stack → Stack → Type 0
IsFloated false pns before after =
    Placed (kept pns before.state.applied ++ pns) (kept pns before.state.unapplied)
      before.state.hidden after
IsFloated true pns before after =
    Placed (kept pns before.state.applied) (pns ++ kept pns before.state.unapplied)
      before.state.hidden after

-- A visible selection has no hidden patch.
visible-count :
    (pns : List PatchName) (stack : Stack)
    → IsWellFormed stack.state
    → IsSelection (stack.state.applied ++ stack.state.unapplied) pns
    → (x : PatchName) → 0 < count x stack.state.hidden
    → count x pns ≡ 0
visible-count pns stack v sel x h = omega (
  arith,
  count_parts stack v x,
  sel x,
  count-append x stack.state.applied stack.state.unapplied,
  h,
)

float-IsPlacement :
    (noapply : Bool) (pns : List PatchName) (stack : Stack)
    → IsWellFormed stack.state
    → IsSelection (stack.state.applied ++ stack.state.unapplied) pns
    → IsPlacement pns
        (float_applied noapply pns stack)
        (float_unapplied noapply pns stack)
        stack.state
unfolding float_applied float_unapplied
float-IsPlacement true pns stack v sel = record {
  total = λ x. ground (
    arith,
    count_parts stack v x,
    sel x,
    contains-count pns x,
    count-append x stack.state.applied stack.state.unapplied,
    count-append x pns (kept pns stack.state.unapplied),
    count-filter x (λ pn. not (contains pns pn)) stack.state.applied,
    count-filter x (λ pn. not (contains pns pn)) stack.state.unapplied,
    count-filter x (λ pn. not (contains pns pn)) stack.state.hidden,
  );
  from_hidden = λ x h. ground (
    arith,
    count_parts stack v x,
    visible-count pns stack v sel x h,
    contains-count pns x,
    contains-count (kept pns stack.state.applied) x,
    count-filter x (λ pn. not (contains pns pn)) stack.state.applied,
  );
}
float-IsPlacement false pns stack v sel = record {
  total = λ x. ground (
    arith,
    count_parts stack v x,
    sel x,
    contains-count pns x,
    count-append x stack.state.applied stack.state.unapplied,
    count-append x (kept pns stack.state.applied) pns,
    count-filter x (λ pn. not (contains pns pn)) stack.state.applied,
    count-filter x (λ pn. not (contains pns pn)) stack.state.unapplied,
    count-filter x (λ pn. not (contains pns pn)) stack.state.hidden,
  );
  from_hidden = λ x h. ground (
    arith,
    count_parts stack v x,
    visible-count pns stack v sel x h,
    contains-count pns x,
    contains-count (kept pns stack.state.applied ++ pns) x,
    count-append x (kept pns stack.state.applied) pns,
    count-filter x (λ pn. not (contains pns pn)) stack.state.applied,
  );
}

Placed-IsFloated :
    (noapply : Bool) (pns : List PatchName) (before after : Stack)
    → kept pns before.state.hidden ≡ before.state.hidden
    → Placed
        (float_applied noapply pns before)
        (float_unapplied noapply pns before)
        (kept pns before.state.hidden)
        after
    → IsFloated noapply pns before after
unfolding float_applied float_unapplied
Placed-IsFloated true pns before after e p =
    subst
      (λ h. Placed (kept pns before.state.applied) (pns ++ kept pns before.state.unapplied) h after)
      e p
Placed-IsFloated false pns before after e p =
    subst
      (λ h. Placed (kept pns before.state.applied ++ pns) (kept pns before.state.unapplied) h after)
      e p

module _ {W : Type 0} (lib : Libraries) (repo : Repository W) (worktree : Worktree W) where
  float_session-IsFloated :
      (matches : FloatMatches) (stack : Stack) (pns : List PatchName) (builder : TransactionBuilder)
      → IsWellFormed stack.state
      → IsSelection (stack.state.applied ++ stack.state.unapplied) pns
      → builder.stack ≡ stack
      → Yields
          (session repo
            (float_builder matches builder)
            (reorder_patches repo.host
              (some (float_applied matches.noapply pns stack))
              (some (float_unapplied matches.noapply pns stack))
              none)
            (codes "float"))
          (IsFloated matches.noapply pns stack)
  unfolding float_builder
  float_session-IsFloated matches stack pns builder v sel e =
      Yields-mono _ _
        (λ after p.
          Placed-IsFloated matches.noapply pns stack after
            (kept_all pns stack.state.hidden (visible-count pns stack v sel)) p)
        (builder_session-Placed repo (float_builder matches builder) stack pns
          (float_applied matches.noapply pns stack) (float_unapplied matches.noapply pns stack)
          (codes "float") e v (float-IsPlacement matches.noapply pns stack v sel))

  float_patches-IsFloated :
      (matches : FloatMatches) (stack : Stack) (statuses : Statuses) (pns : List PatchName)
      → IsWellFormed stack.state
      → IsSelection (stack.state.applied ++ stack.state.unapplied) pns
      → Yields
          (float_patches lib repo worktree matches stack statuses pns)
          (IsFloated matches.noapply pns stack)
  unfolding float_patches
  float_patches-IsFloated matches stack statuses pns v sel =
      Yields-branch _ (is_empty pns) (λ y. Yields-raise _ _)
        (λ n. Yields-then _ _ (λ _.
          Yields-bind _ _ (Yields-expect _ _ (λ builder e. setup_transaction-stack stack builder e))
            (λ builder e. float_session-IsFloated matches stack pns builder v sel e)))

  -- Where the state of the opened stack is well formed, `stg float`, in every world where it
  -- returns a stack, leaves the patches that its ranges resolve to behind the other applied ones,
  -- in the order of the ranges, or, with `noapply`, before the other unapplied ones; the other
  -- patches keep their lists and their order, the hidden ones are untouched, and the state is well
  -- formed.
  pub run_float-IsFloated :
      (matches : FloatMatches) (stack : Stack)
      → IsWellFormed stack.state
      → Yields (run_float lib repo worktree matches stack) (λ after.
        (pns : List PatchName) × (resolve_names lib stack RangeConstraint.visible matches.ranges
          ≡ Outcome.ok pns)
        × IsFloated matches.noapply pns stack after)
  unfolding run_float location_constraint get_allowed
  run_float-IsFloated matches stack v = Yields-then _ _ (λ _. Yields-then _ _ (λ statuses.
      Yields-then _ _ (λ _. Yields-then _ _ (λ _.
        Yields-bind _ _
          (chosen-Yields (range_message lib)
            (resolve_names lib stack RangeConstraint.visible matches.ranges))
          (λ pns e.
            Yields-mono _ _ (λ after q. (pns, e, q))
              (float_patches-IsFloated matches stack statuses pns v (
                resolve_names-Selection lib stack RangeConstraint.visible matches.ranges pns
                  e)))))))
