-- ===== src/Commands/Delete/Deletes.antt =====
-- What `stg delete` of src/cmd/delete.rs leaves.
use stgit.Prelude.{
  not, ◌∷◌, ◌+◌, ◌≤◌, Bool, true, false, not, ◌&&◌, ◌≡◌, sym, ap, subst, ◌∙◌, arith, List, [], ◌∷◌,
  ◌++◌, text_Eq, is_empty, filter-append, contains, contains-count, count, count-append, count-nil,
  one_if, codes,
}
use stgit.Patch.Name.{PatchName}
use stgit.Patch.Locator.{Libraries}
use stgit.Stack.State.{Stack, stack_access, state_access}
use stgit.Stack.Repository.{Repository}
use stgit.Stack.Transaction.Defs.{
  StackTransaction, TransactionOptions, transaction_access, has_patch,
}
use stgit.Stack.Transaction.Ends.{Ends, Ends-exactly}
use stgit.Stack.Transaction.Consistent.{
  IsWellFormed, IsConsistent, count_all, count-split_off_first_kept, deleted_state-IsConsistent,
  split_off_first-append_eq,
}
use stgit.Stack.Transaction.Lists.{split_off_first}
use stgit.Stack.Transaction.Lists.Delete.{deleted_state, delete_patches-Ends}
use stgit.Stack.Transaction.Push.Loop.{Pushable, PushesAll}
use stgit.Stack.Transaction.Push.Merged.{push_patches-Ends}
use stgit.Stack.Transaction.Builder.{TransactionBuilder, begin}
use stgit.Stack.Transaction.Execute.Yields.{
  Yields, Yields-mono, Yields-pure, Yields-raise, Yields-then, Yields-bind, Yields-branch,
  Yields-expect,
}
use stgit.Stack.Transaction.Session.{session, session-Commits, begin-IsConsistent, Commits}
use stgit.Commands.{Worktree}
use stgit.Commands.Delete.Choice.{IsDeleteChoice, AreTopmost, choice-IsDeleteChoice, spilled}
use stgit.Commands.Reordering.{
  kept, kept_all, kept_none, Placed, chosen-Yields, setup_transaction-stack,
}
use stgit.Commands.Delete.{
  DeleteMatches, delete_builder, delete_chosen, delete_choice, delete_checked, run_delete,
  spills_below,
}

-- Every list without the named patches.
abbrev pub IsDeletion : List PatchName → Stack → Stack → Type 0
IsDeletion pns before after =
    Placed (kept pns before.state.applied) (kept pns before.state.unapplied)
      (kept pns before.state.hidden) after

-- The applied patches to push again.
abbrev again : List PatchName → StackTransaction → List PatchName
again pns t = kept pns (split_off_first (λ pn. contains pns pn) t.applied).1

abbrev deleted : List PatchName → StackTransaction → StackTransaction
deleted pns t = deleted_state (λ pn. contains pns pn) t

kept_below :
    (pns applied : List PatchName)
    → kept pns (split_off_first (λ pn. contains pns pn) applied).0
      ≡ (split_off_first (λ pn. contains pns pn) applied).0
kept_below pns applied = kept_all pns _ (λ x k.
    ground (
      arith,
      k,
      contains-count pns x,
      count-split_off_first_kept x (λ pn. contains pns pn) applied,
    ))

-- What stayed and what is pushed again are the kept ones.
applied-again :
    (pns applied : List PatchName)
    → (split_off_first (λ pn. contains pns pn) applied).0
        ++ kept pns (split_off_first (λ pn. contains pns pn) applied).1
      ≡ kept pns applied
applied-again pns applied =
    let (below, above) = split_off_first (λ pn. contains pns pn) applied in
    ap (λ xs. xs ++ kept pns above) (sym (kept_below pns applied))
    ∙ sym (filter-append (λ pn. not (contains pns pn)) below above)
    ∙ ap (kept pns) (split_off_first-append_eq (λ pn. contains pns pn) applied)

deleted-count :
    (pns : List PatchName) {t : StackTransaction}
    → IsConsistent t
    → (x : PatchName)
    → count x (deleted pns t).applied
        + (count x (again pns t) + count x (kept pns t.unapplied))
        + count x (kept pns t.hidden)
      ≡ one_if (has_patch (deleted pns t) x)
deleted-count pns {t} c x = omega (
  arith,
  (deleted_state-IsConsistent (λ pn. contains pns pn) c).counted x,
  count_all x (deleted pns t),
  count-append x (again pns t) (kept pns t.unapplied),
)

one_if-bound : (b : Bool) → one_if b ≤ 1
one_if-bound b = ground arith

again-Pushable :
    (pns : List PatchName) {t : StackTransaction}
    → IsConsistent t
    → Pushable (deleted pns t) (again pns t)
again-Pushable pns c = record { counted = λ x. omega (arith, deleted-count pns c x) }

-- A list that shares no name with what is pushed again.
kept_apart :
    (pns : List PatchName) {t : StackTransaction}
    → IsConsistent t
    → (xs : List PatchName)
    → ((x : PatchName) → count x xs ≤ count x (kept pns t.unapplied) + count x (kept pns t.hidden))
    → kept (again pns t) xs ≡ xs
kept_apart pns {t} c xs h = kept_all (again pns t) xs (λ x k.
    omega (arith, k, h x, deleted-count pns c x, one_if-bound (has_patch (deleted pns t) x)))

unapplied-again :
    (pns : List PatchName) {t : StackTransaction}
    → IsConsistent t
    → kept (again pns t) (again pns t ++ kept pns t.unapplied) ≡ kept pns t.unapplied
unapplied-again pns {t} c =
    filter-append (λ pn. not (contains (again pns t) pn)) (again pns t) (kept pns t.unapplied)
    ∙ ap (λ xs. xs ++ kept (again pns t) (kept pns t.unapplied))
        (kept_none (again pns t) (again pns t) (λ x k. k))
    ∙ kept_apart pns c (kept pns t.unapplied) (λ x. omega arith)

Commits-IsDeletion :
    (pns : List PatchName) (stack : Stack) (options : TransactionOptions) (after : Stack)
    → IsWellFormed stack.state
    → Commits
        (PushesAll (again pns (begin stack options)) (deleted pns (begin stack options)))
        after
    → IsDeletion pns stack after
Commits-IsDeletion pns stack options after v (t, p, c) =
    let b = begin-IsConsistent stack options v in
    record {
      applied_eq = c.applied_eq ∙ p.applied ∙ applied-again pns stack.state.applied;
      unapplied_eq = c.unapplied_eq ∙ p.unapplied ∙ unapplied-again pns b;
      hidden_eq =
          c.hidden_eq
          ∙ p.hidden
          ∙ kept_apart pns b (kept pns stack.state.hidden) (λ x. omega arith);
      well_formed = c.well_formed;
    }

-- Without patches to delete the stack is as it should be.
kept_empty : (pns xs : List PatchName) → is_empty pns ≡ true → kept pns xs ≡ xs
kept_empty [] xs h = kept_all [] xs (λ x k. count-nil x)
kept_empty (pn ∷ pns) xs h = ground arith

empty-IsDeletion :
    (pns : List PatchName) (stack : Stack)
    → IsWellFormed stack.state
    → is_empty pns ≡ true
    → IsDeletion pns stack stack
empty-IsDeletion pns stack v h = record {
  applied_eq = sym (kept_empty pns stack.state.applied h);
  unapplied_eq = sym (kept_empty pns stack.state.unapplied h);
  hidden_eq = sym (kept_empty pns stack.state.hidden h);
  well_formed = v;
}

module _ {W : Type 0} (repo : Repository W) where
  delete_chosen-PushesAll :
      (pns : List PatchName) (t : StackTransaction)
      → IsConsistent t
      → Ends (delete_chosen repo.host pns) t (PushesAll (again pns t) (deleted pns t))
  unfolding delete_chosen
  delete_chosen-PushesAll pns t c =
      Ends-exactly _ _ _ _ _ (delete_patches-Ends repo.host (λ pn. contains pns pn) t) (
        push_patches-Ends repo.host (again pns t) false (deleted pns t)
          (deleted_state-IsConsistent (λ pn. contains pns pn) c) (again-Pushable pns c))

  delete_session-IsDeletion :
      (builder : TransactionBuilder) (pns : List PatchName)
      → IsWellFormed builder.stack.state
      → Yields
          (session repo builder (delete_chosen repo.host pns) (codes "delete"))
          (IsDeletion pns builder.stack)
  delete_session-IsDeletion builder pns v =
      let t = begin builder.stack builder.options in
      Yields-mono _ _ (λ after q. Commits-IsDeletion pns builder.stack builder.options after v q)
        (session-Commits repo builder (delete_chosen repo.host pns) (codes "delete")
          (PushesAll (again pns t) (deleted pns t))
          (delete_chosen-PushesAll pns t (begin-IsConsistent builder.stack builder.options v))
          (λ u q. q.consistent))

module _ {W : Type 0} (lib : Libraries) (repo : Repository W) (worktree : Worktree W) where
  delete_checked-IsDeletion :
      (matches : DeleteMatches) (stack : Stack) (pns : List PatchName)
      → IsWellFormed stack.state
      → Yields (delete_checked lib repo worktree matches stack pns) (IsDeletion pns stack)
  unfolding delete_checked delete_builder
  delete_checked-IsDeletion matches stack pns v = Yields-then _ _ (λ _. Yields-then _ _ (λ _.
      Yields-then _ _ (λ _. Yields-then _ _ (λ _.
        Yields-branch _ (is_empty pns) (λ y. Yields-pure _ stack (empty-IsDeletion pns stack v y))
          (λ n.
            Yields-bind _ _
              (Yields-expect _ _ (λ builder h. setup_transaction-stack stack builder h))
              (λ builder h.
                subst
                  (λ k.
                    IsWellFormed k.state
                    → Yields
                        (session repo (delete_builder matches builder) (delete_chosen repo.host pns)
                          (codes "delete"))
                        (IsDeletion pns k))
                  h (delete_session-IsDeletion repo (delete_builder matches builder) pns) v))))))

  -- Where the state of the opened stack is well formed, `stg delete`, in every world where it
  -- returns a stack, takes the chosen patches (the topmost one, those that the ranges resolve to,
  -- all, or those of the lists that are asked for) off the applied, the unapplied and the hidden
  -- ones; the other patches keep their lists and their order, and the state is well formed. With
  -- `spill`, as many of the topmost applied patches as are chosen are all chosen.
  pub run_delete-IsDeletion :
      (matches : DeleteMatches) (stack : Stack)
      → IsWellFormed stack.state
      → Yields (run_delete lib repo worktree matches stack) (λ after.
        (pns : List PatchName) × IsDeleteChoice lib matches stack pns
        × (matches.spill ≡ true → AreTopmost pns stack.state.applied)
        × IsDeletion pns stack after)
  unfolding run_delete
  run_delete-IsDeletion matches stack v =
      Yields-bind _ _ (chosen-Yields (λ message. message) (delete_choice lib matches stack))
        (λ pns e.
          Yields-branch _ (matches.spill && spills_below pns stack) (λ y. Yields-raise _ _)
            (λ n.
              Yields-mono _ _
                (λ after q. (
                  pns,
                  choice-IsDeleteChoice lib matches stack pns e,
                  spilled pns matches stack n,
                  q,
                ))
                (delete_checked-IsDeletion matches stack pns v)))
