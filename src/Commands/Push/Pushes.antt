-- ===== src/Commands/Push/Pushes.antt =====
-- What `stg push` of src/cmd/push.rs leaves.
use stgit.Prelude.{
  pos, reverse, ◌≤◌, Bool, true, false, not, ◌≡◌, refl, subst, ◌∙◌, arith, List, ◌++◌, none, some,
  ◌⊎◌, inl, inr, text_Eq, is_empty, contains, contains-count, count-append, count-filter, one_if,
  codes, if◌then◌else◌,
}
use stgit.Exec.{ok}
use stgit.Patch.Name.{PatchName}
use stgit.Patch.Locator.{Libraries}
use stgit.Stack.State.{Stack, stack_access, state_access}
use stgit.Stack.Repository.{Repository}
use stgit.Stack.Transaction.Defs.{
  StackTransaction, TransactionOptions, transaction_access, has_patch,
}
use stgit.Stack.Transaction.Ends.{Post, Ends, Ends-get}
use stgit.Stack.Transaction.Consistent.{IsWellFormed, IsConsistent, count_all}
use stgit.Stack.Transaction.Push.Loop.{Pushable, PushesAll}
use stgit.Stack.Transaction.Push.Merged.{push_patches-Ends}
use stgit.Stack.Transaction.Push.{push_patches}
use stgit.Stack.Transaction.Reorder.{reorder_patches}
use stgit.Stack.Transaction.Reorder.Whole.{Arranges, Covers, reorder_patches-Ends}
use stgit.Stack.Transaction.Builder.{TransactionBuilder, begin}
use stgit.Stack.Transaction.Execute.Yields.{
  Yields, Yields-mono, Yields-pure, Yields-raise, Yields-then, Yields-bind, Yields-branch,
  Yields-expect,
}
use stgit.Stack.Transaction.Session.{session, session-Commits, begin-IsConsistent, Commits}
use stgit.Commands.{Worktree}
use stgit.Commands.Push.Choice.{
  Within, IsPushChoice, in_order-reverse, in_order-Within, push_choice-IsPushChoice, choice-Within,
}
use stgit.Commands.Reordering.{
  kept, kept_all, Placed, chosen-Yields, setup_transaction-stack, count_parts,
}
use stgit.Commands.Push.{
  PushMatches, in_order, push_unapplied, push_builder, push_chosen, push_choice, push_checked,
  run_push,
}
use stgit.Commands.Pop.{is_zero}
use stgit.Commands.Numbered.{is_zero-eq}

-- The patches on top of the applied ones, or, with `noapply`, before the other unapplied ones.
abbrev pub IsPushed : Bool → List PatchName → Stack → Stack → Type 0
IsPushed false pns before after =
    Placed (before.state.applied ++ pns) (kept pns before.state.unapplied) before.state.hidden after
IsPushed true pns before after =
    Placed before.state.applied (pns ++ kept pns before.state.unapplied) before.state.hidden after

Within-Pushable :
    (pns : List PatchName) (t : StackTransaction)
    → IsConsistent t
    → Within t.unapplied pns
    → Pushable t pns
Within-Pushable pns t c h = record { counted = λ x. omega (arith, c.counted x, count_all x t, h x) }

one_if-bound : (b : Bool) → one_if b ≤ 1
one_if-bound b = ground arith

Within-Covers :
    (pns : List PatchName) (t : StackTransaction)
    → IsConsistent t
    → Within t.unapplied pns
    → Covers t.applied (push_unapplied pns t.unapplied) t.hidden t
Within-Covers pns t c h = record {
  covered = λ x. ground (
    arith,
    c.counted x,
    one_if-bound (has_patch t x),
    count_all x t,
    h x,
    contains-count pns x,
    count-append x pns (kept pns t.unapplied),
    count-filter x (λ pn. not (contains pns pn)) t.unapplied,
  );
}

-- What a successful end of the closure leaves.
abbrev PushEnd : Bool → List PatchName → StackTransaction → Post (Unit {0})
PushEnd false pns t = PushesAll {A = Unit {0}} pns t
PushEnd true pns t = Arranges {A = Unit {0}} t.applied (push_unapplied pns t.unapplied) t.hidden t

PushEnd-IsConsistent :
    (noapply : Bool) (pns : List PatchName) (t u : StackTransaction)
    → PushEnd noapply pns t (ok tt) u
    → IsConsistent u
PushEnd-IsConsistent true pns t u q = q.consistent
PushEnd-IsConsistent false pns t u q = q.consistent

hidden-apart :
    (pns : List PatchName) (stack : Stack)
    → IsWellFormed stack.state
    → Within stack.state.unapplied pns
    → kept pns stack.state.hidden ≡ stack.state.hidden
hidden-apart pns stack v h =
    kept_all pns stack.state.hidden (λ x k. omega (arith, k, h x, count_parts stack v x))

Commits-IsPushed :
    (noapply : Bool) (pns : List PatchName) (stack : Stack) (options : TransactionOptions)
    (after : Stack)
    → IsWellFormed stack.state
    → Within stack.state.unapplied pns
    → Commits (PushEnd noapply pns (begin stack options)) after
    → IsPushed noapply pns stack after
Commits-IsPushed true pns stack options after v h (t, q, c) = record {
  applied_eq = c.applied_eq ∙ q.applied_eq;
  unapplied_eq = c.unapplied_eq ∙ q.unapplied_eq;
  hidden_eq = c.hidden_eq ∙ q.hidden_eq;
  well_formed = c.well_formed;
}
Commits-IsPushed false pns stack options after v h (t, q, c) = record {
  applied_eq = c.applied_eq ∙ q.applied;
  unapplied_eq = c.unapplied_eq ∙ q.unapplied;
  hidden_eq = c.hidden_eq ∙ q.hidden ∙ hidden-apart pns stack v h;
  well_formed = c.well_formed;
}

module _ {W : Type 0} (repo : Repository W) where
  push_chosen-PushEnd :
      (matches : PushMatches) (pns : List PatchName) (t : StackTransaction)
      → matches.set_tree ≡ false
      → IsConsistent t
      → Within t.unapplied pns
      → Ends (push_chosen repo.host matches pns) t (PushEnd matches.noapply pns t)
  unfolding push_chosen
  push_chosen-PushEnd matches pns t e c h = Ends-get _ _ (rw e (on matches.noapply))
    where
      on :
          (noapply : Bool)
          → Ends
              (if noapply
                then reorder_patches repo.host none (some (push_unapplied pns t.unapplied)) none
                else push_patches repo.host pns matches.merged)
              t
              (PushEnd noapply pns t)
      on true =
          reorder_patches-Ends repo.host none (some (push_unapplied pns t.unapplied)) none t c
            (Within-Covers pns t c h)
      on false = push_patches-Ends repo.host pns matches.merged t c (Within-Pushable pns t c h)

  push_session-IsPushed :
      (builder : TransactionBuilder) (matches : PushMatches) (pns : List PatchName)
      → matches.set_tree ≡ false
      → IsWellFormed builder.stack.state
      → Within builder.stack.state.unapplied pns
      → Yields
          (session repo builder (push_chosen repo.host matches pns) (codes "push"))
          (IsPushed matches.noapply pns builder.stack)
  push_session-IsPushed builder matches pns e v h =
      let t = begin builder.stack builder.options in
      Yields-mono _ _
        (λ after q. Commits-IsPushed matches.noapply pns builder.stack builder.options after v h q)
        (session-Commits repo builder (push_chosen repo.host matches pns) (codes "push")
          (PushEnd matches.noapply pns t)
          (push_chosen-PushEnd matches pns t e (begin-IsConsistent builder.stack builder.options v)
            h)
          (λ u q. PushEnd-IsConsistent matches.noapply pns t u q))

module _ {W : Type 0} (lib : Libraries) (repo : Repository W) (worktree : Worktree W) where
  push_checked-IsPushed :
      (matches : PushMatches) (stack : Stack) (pns : List PatchName)
      → matches.set_tree ≡ false
      → IsWellFormed stack.state
      → Within stack.state.unapplied pns
      → Yields
          (push_checked lib repo worktree matches stack pns)
          (IsPushed matches.noapply (in_order matches.reversed pns) stack)
  unfolding push_checked push_builder
  push_checked-IsPushed matches stack pns e v h = Yields-then _ _ (λ _. Yields-then _ _ (λ _.
      Yields-then _ _ (λ _. Yields-then _ _ (λ _. Yields-then _ _ (λ _.
        Yields-bind _ _ (Yields-expect _ _ (λ builder k. setup_transaction-stack stack builder k))
          (λ builder k.
            subst
              (λ s.
                IsWellFormed s.state
                → Within s.state.unapplied (in_order matches.reversed pns)
                → Yields
                    (session repo (push_builder matches builder)
                      (push_chosen repo.host matches (in_order matches.reversed pns))
                      (codes "push"))
                    (IsPushed matches.noapply (in_order matches.reversed pns) s))
              k
              (push_session-IsPushed repo (push_builder matches builder) matches
                (in_order matches.reversed pns) e)
              v (in_order-Within matches.reversed stack.state.unapplied pns h)))))))

  -- Where the state of the opened stack is well formed and `set-tree` is not given, `stg push`, in
  -- every world where it returns a stack, returns it as it is for the number 0, and otherwise puts
  -- the chosen patches (those that the ranges resolve to, all unapplied ones, as many of the first
  -- ones as the number says, all but as many of the last ones for a negative number, or the first
  -- one), reversed with `reverse`, on top of the applied ones, or, with `noapply`, before the other
  -- unapplied ones; the other unapplied patches keep their order, the hidden ones are untouched,
  -- and the state is well formed.
  pub run_push-IsPushed :
      (matches : PushMatches) (stack : Stack)
      → matches.set_tree ≡ false
      → IsWellFormed stack.state
      → Yields (run_push lib repo worktree matches stack) (λ after.
        ((matches.number ≡ some (pos 0)) × (after ≡ stack))
        ⊎ ((pns : List PatchName) × IsPushChoice lib matches matches.ranges stack pns
            × IsPushed matches.noapply (if matches.reversed then reverse pns else pns) stack after))
  unfolding run_push
  run_push-IsPushed matches stack t v =
      Yields-branch _ (is_zero matches.number)
        (λ y. Yields-pure _ stack (inl (is_zero-eq matches.number y, refl)))
        (λ n.
          Yields-bind _ _
            (chosen-Yields (λ message. message) (push_choice lib matches stack matches.ranges))
            (λ pns e.
              Yields-branch _ (is_empty pns) (λ y. Yields-raise _ _)
                (λ k.
                  let choice = push_choice-IsPushChoice lib matches stack matches.ranges pns e k in
                  Yields-mono _ _
                    (λ after q. inr (
                      pns,
                      choice,
                      subst (λ xs. IsPushed matches.noapply xs stack after)
                          (in_order-reverse matches.reversed pns) q,
                    ))
                    (push_checked-IsPushed matches stack pns t v
                      (choice-Within lib matches stack matches.ranges pns choice)))))
