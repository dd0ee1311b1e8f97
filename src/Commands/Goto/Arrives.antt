-- ===== src/Commands/Goto/Arrives.antt =====
-- Where `stg goto` of src/cmd/goto.rs arrives.
use stgit.Prelude.{
  ℕ, zero, suc, ◌≤◌, Bool, true, not, ◌≡◌, refl, sym, ap, subst, ◌∙◌, arith, List, [], ◌∷◌, ◌++◌,
  append_assoc, none, some, text_Eq, text_eq_iff, Option-cases, inl, inr, ◌==◌, get_last?, take,
  drop, take-append-drop, position, filter-append, contains, contains-count, count, count-append,
  count-take-drop, codes,
}
use stgit.Patch.Name.{PatchName}
use stgit.Patch.Outcome.{Outcome}
use stgit.Patch.Locator.{Libraries}
use stgit.Patch.Locator.Resolve.{resolve_name}
use stgit.Patch.Range.{constrain}
use stgit.Patch.Range.Selected.{constrain-allowed, contains-append}
use stgit.Patch.Range.Panics.{position-contains}
use stgit.Stack.Access.{LocationConstraint, get_allowed}
use stgit.Stack.State.{Stack, stack_access, state_access}
use stgit.Stack.Repository.{Repository}
use stgit.Stack.Transaction.Defs.{TransactionOptions, transaction_access}
use stgit.Stack.Transaction.Consistent.{IsWellFormed, count_all}
use stgit.Stack.Transaction.Ends.{Ends, Ends-get, Ends-unwrap-some}
use stgit.Stack.Transaction.Reorder.Applied.{reordered_hidden}
use stgit.Stack.Transaction.Reorder.Whole.{Arranges, reorder_patches-Ends}
use stgit.Stack.Transaction.Push.Loop.{Pushable, PushesAll}
use stgit.Stack.Transaction.Push.Merged.{push_patches-Ends}
use stgit.Stack.Transaction.Builder.{TransactionBuilder, begin}
use stgit.Stack.Transaction.Execute.Yields.{
  Yields, Yields-mono, Yields-then, Yields-bind, Yields-expect,
}
use stgit.Stack.Transaction.Session.{
  session, session-Commits, begin-IsConsistent, PushesAll-PushedStack, PushedStack,
}
use stgit.Commands.{Worktree}
use stgit.Commands.Reordering.{
  kept, kept_all, kept_none, Placed, IsPlacement, begin-Covers, Commits-Placed, count_parts,
  chosen-Yields, setup_transaction-stack,
}
use stgit.Commands.Goto.{GotoMatches, goto_from, goto_patch, goto_builder, run_goto}

-- The patch is the topmost applied one, and the visible patches are the same, in the same order.
pub record Arrived (pn : PatchName) (before after : Stack) : Type 0 where
  pub top_eq : get_last? after.state.applied ≡ some pn
  pub visible_eq :
      after.state.applied ++ after.state.unapplied ≡ before.state.applied ++ before.state.unapplied
  pub hidden_eq : after.state.hidden ≡ before.state.hidden
  pub well_formed : IsWellFormed after.state

get_last?-position :
    (pn : PatchName) (xs : List PatchName) (i : ℕ)
    → position (λ x. x == pn) xs ≡ some i
    → get_last? (take (suc i) xs) ≡ some pn
unfolding position
get_last?-position pn [] i h = cc
get_last?-position pn (x ∷ xs) zero h = ground (arith, text_eq_iff x pn)
get_last?-position pn (x ∷ []) (suc i) h = absurd (ground arith)
get_last?-position pn (x ∷ y ∷ xs) (suc i) h = get_last?-position pn (y ∷ xs) i (ground arith)

get_last?-append :
    (xs ys : List PatchName) (pn : PatchName)
    → get_last? ys ≡ some pn
    → get_last? (xs ++ ys) ≡ some pn
get_last?-append [] ys pn h = h
get_last?-append (x ∷ []) [] pn h = cc
get_last?-append (x ∷ []) (y ∷ ys) pn h = h
get_last?-append (x ∷ z ∷ xs) ys pn h = get_last?-append (z ∷ xs) ys pn h

-- Without its first part, a list that repeats nothing is its second part.
kept-take :
    (n : ℕ) (xs : List PatchName)
    → ((x : PatchName) → count x xs ≤ 1)
    → kept (take n xs) xs ≡ drop n xs
kept-take n xs once =
    ap (kept (take n xs)) (sym (take-append-drop n xs))
    ∙ filter-append (λ pn. not (contains (take n xs) pn)) (take n xs) (drop n xs)
    ∙ ap (λ t. t ++ kept (take n xs) (drop n xs)) (kept_none (take n xs) (take n xs) (λ x h. h))
    ∙ kept_all (take n xs) (drop n xs) (λ x h. omega (arith, h, once x, count-take-drop x n xs))

goto-IsPlacement :
    (pos : ℕ) (stack : Stack)
    → IsWellFormed stack.state
    → IsPlacement []
        (take (suc pos) stack.state.applied)
        (drop (suc pos) stack.state.applied ++ stack.state.unapplied)
        stack.state
unfolding contains count
goto-IsPlacement pos stack v = record {
  total = λ x. omega (
    arith,
    ap (count x) (kept_all [] stack.state.hidden (λ y h. refl)),
    count-take-drop x (suc pos) stack.state.applied,
    count-append x (drop (suc pos) stack.state.applied) stack.state.unapplied,
  );
  from_hidden = λ x h. ground (
    arith,
    count_parts stack v x,
    h,
    contains-count (take (suc pos) stack.state.applied) x,
    count-take-drop x (suc pos) stack.state.applied,
  );
}

goto-Pushable :
    (n : ℕ) (stack : Stack) (options : TransactionOptions)
    → IsWellFormed stack.state
    → Pushable (begin stack options) (take n stack.state.unapplied)
goto-Pushable n stack options v = record {
  counted = λ x. omega (
    arith,
    (begin-IsConsistent stack options v).counted x,
    count_all x (begin stack options),
    count-take-drop x n stack.state.unapplied,
  );
}

not_visible :
    (pn : PatchName) (stack : Stack)
    → position (λ x. x == pn) stack.state.applied ≡ none
    → position (λ x. x == pn) stack.state.unapplied ≡ none
    → contains (stack.state.applied ++ stack.state.unapplied) pn ≡ true
    → ⊥
not_visible pn stack n m h = ground (
  arith,
  n,
  m,
  h,
  contains-append pn stack.state.applied stack.state.unapplied,
  position-contains pn stack.state.applied,
  position-contains pn stack.state.unapplied,
)

down-Arrived :
    (pn : PatchName) (before : Stack) (pos : ℕ) (after : Stack)
    → position (λ x. x == pn) before.state.applied ≡ some pos
    → Placed
        (take (suc pos) before.state.applied)
        (drop (suc pos) before.state.applied ++ before.state.unapplied)
        (kept [] before.state.hidden)
        after
    → Arrived pn before after
unfolding count
down-Arrived pn before pos after h p = record {
  top_eq = ap get_last? p.applied_eq ∙ get_last?-position pn before.state.applied pos h;
  visible_eq =
      ap (λ t. t ++ after.state.unapplied) p.applied_eq
      ∙ ap (λ t. take (suc pos) before.state.applied ++ t) p.unapplied_eq
      ∙ sym (
          append_assoc (take (suc pos) before.state.applied) (drop (suc pos) before.state.applied)
            before.state.unapplied)
      ∙ ap (λ t. t ++ before.state.unapplied) (take-append-drop (suc pos) before.state.applied);
  hidden_eq = p.hidden_eq ∙ kept_all [] before.state.hidden (λ x k. refl);
  well_formed = p.well_formed;
}

up-Arrived :
    (pn : PatchName) (before : Stack) (pos : ℕ) (after : Stack)
    → IsWellFormed before.state
    → position (λ x. x == pn) before.state.unapplied ≡ some pos
    → PushedStack before.state (take (suc pos) before.state.unapplied) after.state
    → Arrived pn before after
up-Arrived pn before pos after v h p =
    let us = before.state.unapplied in
    let top =
      get_last?-append before.state.applied (take (suc pos) us) pn
        (get_last?-position pn us pos h) in
    record {
      top_eq = ap get_last? p.applied_eq ∙ top;
      visible_eq =
          ap (λ t. t ++ after.state.unapplied) p.applied_eq
          ∙ ap (λ t. (before.state.applied ++ take (suc pos) us) ++ t)
              (p.unapplied_eq ∙ kept-take (suc pos) us (λ x. omega (arith, count_parts before v x)))
          ∙ append_assoc before.state.applied (take (suc pos) us) (drop (suc pos) us)
          ∙ ap (λ t. before.state.applied ++ t) (take-append-drop (suc pos) us);
      hidden_eq =
          p.hidden_eq
          ∙ kept_all (take (suc pos) us) before.state.hidden
              (λ x k. omega (arith, k, count_parts before v x, count-take-drop x (suc pos) us));
      well_formed = p.well_formed;
    }

module _ {W : Type 0} (repo : Repository W) where
  -- The patch is applied: those above it are popped.
  goto_down-Arrived :
      (pn : PatchName) (merged : Bool) (builder : TransactionBuilder) (pos : ℕ)
      → IsWellFormed builder.stack.state
      → position (λ x. x == pn) builder.stack.state.applied ≡ some pos
      → Yields
          (session repo builder (goto_patch repo.host pn merged) (codes "goto"))
          (Arrived pn builder.stack)
  unfolding goto_patch goto_from
  goto_down-Arrived pn merged builder pos v h =
      let t = begin builder.stack builder.options in
      let p = goto-IsPlacement pos builder.stack v in
      let down = take (suc pos) builder.stack.state.applied in
      let up = drop (suc pos) builder.stack.state.applied ++ builder.stack.state.unapplied in
      Yields-mono _ _
        (λ after c.
          down-Arrived pn builder.stack pos after h
            (Commits-Placed [] down up builder.stack builder.options after v p c))
        (session-Commits repo builder _ (codes "goto")
          (Arranges down up (reordered_hidden t down) t)
          (Ends-get _ _ (
            subst
              (λ o.
                Ends (goto_from repo.host pn merged t o) t
                  (Arranges down up (reordered_hidden t down) t))
              (sym h)
              (reorder_patches-Ends repo.host (some down) (some up) none t
                (begin-IsConsistent builder.stack builder.options v)
                (begin-Covers [] down up builder.stack builder.options v p))))
          (λ u q. q.consistent))

  -- The patch is not applied: it is pushed with those before it.
  goto_up-Arrived :
      (pn : PatchName) (merged : Bool) (builder : TransactionBuilder) (pos : ℕ)
      → IsWellFormed builder.stack.state
      → position (λ x. x == pn) builder.stack.state.applied ≡ none
      → position (λ x. x == pn) builder.stack.state.unapplied ≡ some pos
      → Yields
          (session repo builder (goto_patch repo.host pn merged) (codes "goto"))
          (Arrived pn builder.stack)
  unfolding goto_patch goto_from
  goto_up-Arrived pn merged builder pos v g h =
      let t = begin builder.stack builder.options in
      let pns = take (suc pos) builder.stack.state.unapplied in
      Yields-mono _ _
        (λ after c.
          up-Arrived pn builder.stack pos after v h
            (PushesAll-PushedStack pns builder.stack builder.options after c))
        (session-Commits repo builder _ (codes "goto") (PushesAll pns t)
          (Ends-get _ _ (
            subst (λ o. Ends (goto_from repo.host pn merged t o) t (PushesAll pns t)) (sym g)
              (Ends-unwrap-some _ _ _ pos h (
                push_patches-Ends repo.host pns merged t
                  (begin-IsConsistent builder.stack builder.options v)
                  (goto-Pushable (suc pos) builder.stack builder.options v)))))
          (λ u q. q.consistent))

  goto_patch-Arrived :
      (pn : PatchName) (merged : Bool) (builder : TransactionBuilder)
      → IsWellFormed builder.stack.state
      → contains (builder.stack.state.applied ++ builder.stack.state.unapplied) pn ≡ true
      → Yields
          (session repo builder (goto_patch repo.host pn merged) (codes "goto"))
          (Arrived pn builder.stack)
  goto_patch-Arrived pn merged builder v h =
      elim (Option-cases (position (λ x. x == pn) builder.stack.state.applied)) [
        | inr (pos, e) ↦ goto_down-Arrived pn merged builder pos v e
        | inl n ↦ elim (Option-cases (position (λ x. x == pn) builder.stack.state.unapplied)) [
          | inr (pos, e) ↦ goto_up-Arrived pn merged builder pos v n e
          | inl m ↦ absurd (not_visible pn builder.stack n m h)
        ]
      ]

module _ {W : Type 0} (lib : Libraries) (repo : Repository W) (worktree : Worktree W) where
  goto_session-Arrived :
      (matches : GotoMatches) (stack : Stack) (pn : PatchName) (builder : TransactionBuilder)
      → IsWellFormed stack.state
      → contains (stack.state.applied ++ stack.state.unapplied) pn ≡ true
      → builder.stack ≡ stack
      → Yields
          (session repo
            (goto_builder matches builder)
            (goto_patch repo.host pn matches.merged)
            (codes "goto"))
          (Arrived pn stack)
  unfolding goto_builder
  goto_session-Arrived matches stack pn builder v h e =
      subst
        (λ k.
          Yields
            (session repo (goto_builder matches builder) (goto_patch repo.host pn matches.merged)
              (codes "goto"))
            (Arrived pn k))
        e
        (goto_patch-Arrived repo pn matches.merged (goto_builder matches builder)
          (subst (λ k. IsWellFormed k.state) (sym e) v)
          (subst (λ k. contains (k.state.applied ++ k.state.unapplied) pn ≡ true) (sym e) h))

  -- Where the state of the opened stack is well formed, `stg goto`, in every world where it returns
  -- a stack, leaves the patch that its locator resolves to as the topmost applied one; the applied
  -- patches followed by the unapplied ones are the same list as before, the hidden patches are the
  -- same, and the state is well formed.
  pub run_goto-Arrived :
      (matches : GotoMatches) (stack : Stack)
      → IsWellFormed stack.state
      → Yields (run_goto lib repo worktree matches stack) (λ after.
        (pn : PatchName) × (resolve_name lib stack matches.patch ≡ Outcome.ok pn)
        × Arrived pn stack after)
  unfolding run_goto get_allowed
  run_goto-Arrived matches stack v = Yields-then _ _ (λ _. Yields-then _ _ (λ statuses.
      Yields-then _ _ (λ _. Yields-then _ _ (λ _. Yields-then _ _ (λ _.
        Yields-bind _ _ (chosen-Yields _ (resolve_name lib stack matches.patch)) (λ found e.
          Yields-bind _ _ (chosen-Yields _ (constrain lib stack found LocationConstraint.visible))
            (λ pn f.
              let (same, known) =
                constrain-allowed lib stack found pn LocationConstraint.visible f in
              Yields-bind _ _
                (Yields-expect _ _ (λ builder g. setup_transaction-stack stack builder g))
                (λ builder g.
                  Yields-mono _ _ (λ after q. (pn, e ∙ ap Outcome.ok (sym same), q))
                    (goto_session-Arrived matches stack pn builder v
                      (subst (λ n. contains (stack.state.applied ++ stack.state.unapplied) n ≡ true)
                        (sym same) known)
                      g)))))))))
