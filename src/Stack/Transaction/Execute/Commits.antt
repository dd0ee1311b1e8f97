-- ===== src/Stack/Transaction/Execute/Commits.antt =====
-- What `execute` of src/stack/transaction/mod.rs leaves.
use stgit.Prelude.{
  Text, ◌≡◌, refl, sym, ap, ◌∙◌, arith, [], ◌∷◌, Option, none, some, Map, lookup, lookup-insert,
  lookup-remove, if◌then◌else◌, text_Eq,
}
use stgit.Exec.{Error}
use stgit.Host.{Commit, ObjectId}
use stgit.Patch.Name.{PatchName}
use stgit.Stack.Access.{PatchState}
use stgit.Stack.State.{Stack, state_access, stack_access, is_head_top}
use stgit.Stack.Repository.{Repository}
use stgit.Stack.Commit.{log_external_mods}
use stgit.Stack.Transaction.Defs.{StackTransaction, transaction_access, head, has_patch, get_patch}
use stgit.Stack.Transaction.Consistent.{IsWellFormed, IsConsistent}
use stgit.Stack.Transaction.Execute.{apply_updates, write_state, execute, conclude, rollback}
use stgit.Stack.Transaction.Execute.Yields.{
  Yields, Yields-pure, Yields-raise, Yields-expect, Yields-map_err, Yields-if, Yields-branch,
  Yields-bind, Yields-then,
}

-- The updates of a transaction take precedence over the patches of the state.
lookup-apply_updates :
    (a : PatchName) (updates : Map PatchName (Option PatchState))
    (patches : Map PatchName PatchState)
    → lookup a (apply_updates updates patches)
      ≡ (elim (lookup a updates) [ some v ↦ v | none ↦ lookup a patches ])
unfolding apply_updates lookup
lookup-apply_updates a [] patches = refl
lookup-apply_updates a ((pn, none) ∷ updates) patches = ground (
  arith,
  lookup-apply_updates a updates patches,
  lookup-remove pn a (apply_updates updates patches),
)
lookup-apply_updates a ((pn, some patch) ∷ updates) patches = ground (
  arith,
  lookup-apply_updates a updates patches,
  lookup-insert pn a patch (apply_updates updates patches),
)

-- The stack that `execute` returns.
pub record Committed (t : StackTransaction) (stack : Stack) : Type 0 where
  pub no_error : t.error ≡ none
  pub applied_eq : stack.state.applied ≡ t.applied
  pub unapplied_eq : stack.state.unapplied ≡ t.unapplied
  pub hidden_eq : stack.state.hidden ≡ t.hidden
  pub patches_eq : (a : PatchName) → lookup a stack.state.patches ≡ get_patch t a
  pub head_eq : some stack.state.head ≡ head t
  pub branch_eq :
      stack.branch_head ≡ (if t.options.set_head then stack.state.head else t.stack.branch_head)
  pub well_formed : IsWellFormed stack.state

-- A step before the state is written keeps the patches and the head of the branch.
abbrev pub Keeps : Stack → Stack → Type 0
Keeps s s' = (s'.state.patches ≡ s.state.patches) × (s'.branch_head ≡ s.branch_head)

-- The state is written as the transaction has it, whatever error it keeps.
pub record Written (t : StackTransaction) (trans_head : Commit) (stack : Stack) : Type 0 where
  pub applied_eq : stack.state.applied ≡ t.applied
  pub unapplied_eq : stack.state.unapplied ≡ t.unapplied
  pub hidden_eq : stack.state.hidden ≡ t.hidden
  pub patches_eq : (a : PatchName) → lookup a stack.state.patches ≡ get_patch t a
  pub head_eq : stack.state.head ≡ trans_head
  pub branch_eq :
      stack.branch_head ≡ (if t.options.set_head then stack.state.head else t.stack.branch_head)

patches_after :
    (t : StackTransaction) (stack : Stack)
    → stack.state.patches ≡ t.stack.state.patches
    → (a : PatchName)
    → lookup a (apply_updates t.updated_patches stack.state.patches) ≡ get_patch t a
unfolding get_patch
patches_after t stack e a =
    ground (arith, lookup-apply_updates a t.updated_patches stack.state.patches, ap (lookup a) e)

Written-IsWellFormed :
    {t : StackTransaction} {trans_head : Commit} (stack : Stack)
    → Written t trans_head stack
    → IsConsistent t
    → IsWellFormed stack.state
unfolding has_patch get_patch
Written-IsWellFormed {t} stack v c = record {
  counted = λ a.
      rw (v.applied_eq, v.unapplied_eq, v.hidden_eq, v.patches_eq a) (ground (arith, c.counted a));
}

module _ {W : Type 0} (repo : Repository W) where
  log_external_mods-Keeps :
      (s : Stack) (message : Option Text) → Yields (log_external_mods repo s message) (Keeps s)
  unfolding log_external_mods
  log_external_mods-Keeps s message = Yields-then _ _ (λ _.
      Yields-then _ _
        (λ _. Yields-then _ _ (λ _. Yields-then _ _ (λ _. Yields-pure _ _ (refl, refl)))))

  pub write_state-Written :
      (t : StackTransaction) (stack : Stack) (trans_head : Commit) (message : Text)
      → Keeps t.stack stack
      → Yields (write_state repo t stack trans_head message) (Written t trans_head)
  unfolding write_state
  write_state-Written t stack trans_head message k = Yields-then _ _ (λ prev. Yields-then _ _ (λ _.
      Yields-then _ _ (λ _.
        Yields-branch _ t.options.set_head
          (λ e. Yields-then _ _ (λ _. Yields-pure _ _ (record {
            applied_eq = refl;
            unapplied_eq = refl;
            hidden_eq = refl;
            patches_eq = patches_after t stack k.0;
            head_eq = refl;
            branch_eq = rw e refl;
          })))
          (λ e. Yields-pure _ _ (record {
            applied_eq = refl;
            unapplied_eq = refl;
            hidden_eq = refl;
            patches_eq = patches_after t stack k.0;
            head_eq = refl;
            branch_eq = rw e k.1;
          })))))

  rollback-Yields :
      {Q : Stack → Type 0} (t : StackTransaction) (old_tree_id : ObjectId) (e : Error)
      → Yields (rollback repo t old_tree_id e) Q
  unfolding rollback
  rollback-Yields t old_tree_id e = Yields-then _ _ (λ _. Yields-then _ _ (λ _. Yields-raise _ _))

  conclude-Commits :
      (error : Option Error) (top : Option PatchName) (t : StackTransaction) (stack : Stack)
      → (error ≡ none → Committed t stack)
      → Yields (conclude repo error top stack) (Committed t)
  unfolding conclude
  conclude-Commits (some e) top t stack h = Yields-raise _ _
  conclude-Commits none top t stack h =
      Yields-then _ _ (λ printed. Yields-then _ _ (λ _. Yields-pure _ _ (h refl)))

  -- Where a transaction that keeps no error is consistent, `execute` leaves, in every world where
  -- it returns a stack, a stack with the transaction's three lists, whose map holds for every name
  -- what the transaction's updates and the original stack together say, and whose recorded head is
  -- the transaction's head; the branch's head is that commit if the transaction sets it, and as
  -- before if not; the state is well formed, and the transaction kept no error.
  pub execute-Commits :
      (t : StackTransaction) (reflog_msg : Text)
      → (t.error ≡ none → IsConsistent t)
      → Yields (execute repo t reflog_msg) (Committed t)
  unfolding execute
  execute-Commits t reflog_msg c = Yields-then _ _ (λ _.
      Yields-bind (λ trans_head. head t ≡ some trans_head) _ (Yields-expect _ _ (λ a e. e))
        (λ trans_head e. Yields-then _ _ (λ conflicts.
          Yields-bind (Keeps t.stack) _
            (Yields-if _ (is_head_top t.stack) (Yields-pure _ _ (refl, refl))
              (log_external_mods-Keeps t.stack none))
            (λ stack k. Yields-then _ _ (λ _.
              Yields-bind (Written t trans_head) _
                (Yields-map_err _ _ _ (write_state-Written t stack trans_head _ k)
                  (λ e'. rollback-Yields t trans_head.tree_id e'))
                (λ stack' v. conclude-Commits t.error _ t stack' (λ ne. record {
                  no_error = ne;
                  applied_eq = v.applied_eq;
                  unapplied_eq = v.unapplied_eq;
                  hidden_eq = v.hidden_eq;
                  patches_eq = v.patches_eq;
                  head_eq = ap some v.head_eq ∙ sym e;
                  branch_eq = v.branch_eq;
                  well_formed = Written-IsWellFormed stack' v (c ne);
                })))))))
