-- ===== src/Stack/Transaction/Push/Merged.antt =====
-- How `check_merged` and `push_patches` of src/stack/transaction/mod.rs end.
use stgit.Prelude.{
  ◌≤◌, Bool, true, ◌≡◌, refl, sym, subst, arith, List, [], ◌∷◌, Option, none, Option-cases, inl,
  inr, head?, count, count-cons, count-reverse, one_if, reverse, text_Eq, text_eq_iff,
}
use stgit.Exec.{Error, failed, bail, checkout_conflicts, halt, panic, ok, err, ◌>>=◌}
use stgit.Host.{ObjectId, Commit, Host}
use stgit.Patch.Name.{PatchName}
use stgit.Stack.Transaction.Defs.{StackTransaction, has_patch, M}
use stgit.Stack.Transaction.Ends.{
  Post, Returns, Ends, Ends-get, Ends-call, Ends-pure, Ends-raise, Ends-last, Ends-bind, Holds,
  Ends-returns, Ends-unwrap,
}
use stgit.Stack.Transaction.Consistent.{IsConsistent}
use stgit.Stack.Transaction.Merge.{get_parent_commit, is_tree}
use stgit.Stack.Transaction.Push.{
  push_patches, check_merged, check_merged_loop, check_merged_round, is_no_change,
}
use stgit.Stack.Transaction.Push.Merging.{if-Ends}
use stgit.Stack.Transaction.Push.Outcome.{has_patch-get_patch}
use stgit.Stack.Transaction.Push.Loop.{Pushable, PushesAll, push_loop-Ends}

-- The method only reads the transaction. It may stop on an error, and does not panic or halt.
abbrev pub Reads : {A : Type 0} → StackTransaction → Post A
Reads t (ok a) u = u ≡ t
Reads t (err (bail message)) u = Unit
Reads t (err _) u = ⊥

Reads-stop :
    (A B : Type 0) (Q : Post B) (t : StackTransaction)
    → ((message : _) (u : StackTransaction) → Q (err (bail message)) u)
    → (e : Error) (u : StackTransaction) → Reads {A = A} t (err e) u
    → Holds Q (err e) u
Reads-stop A B Q t k (failed message) u h = tt
Reads-stop A B Q t k (bail message) u h = k message u
Reads-stop A B Q t k (checkout_conflicts message) u h = absurd h
Reads-stop A B Q t k (halt message conflicts) u h = absurd h
Reads-stop A B Q t k panic u h = absurd h

Reads-then :
    {W A B : Type 0} {m : M W A} {f : A → M W B} {t : StackTransaction} (Q : Post B)
    → ((message : _) (u : StackTransaction) → Q (err (bail message)) u)
    → Ends m t (Reads t)
    → ((a : A) → Ends (f a) t Q)
    → Ends (m >>= f) t Q
Reads-then {A = A} {B} {m = m} {f = f} {t} Q stop h k =
    Ends-bind (Reads t) Q f m h (λ a u e. subst (λ v. Ends (f a) v Q) (sym e) (k a))
      (Reads-stop A B Q t stop)

module _ {W : Type 0} (host : Host W) where
  parent-Reads :
      (commit : Commit) (t : StackTransaction) → Ends (get_parent_commit host commit) t (Reads t)
  unfolding get_parent_commit
  parent-Reads commit t = elim (Option-cases (head? commit.parent_ids)) [
    | inl e ↦ rw (e, get_parent_commit) (Ends-raise _ _ tt)
    | inr (id, e) ↦ rw (e, get_parent_commit) (Ends-last _ _ (λ _. refl))
  ]

  is_no_change-Reads :
      (commit : Commit) (ids : List ObjectId) (t : StackTransaction)
      → Ends (is_no_change host commit ids) t (Returns t)
  unfolding is_no_change
  is_no_change-Reads commit [] t = Ends-pure _ _ (refl, tt)
  is_no_change-Reads commit (id ∷ []) t = Ends-call _ _ _ (λ _. Ends-pure _ _ (refl, tt))
  is_no_change-Reads commit (id ∷ other ∷ ids) t = Ends-pure _ _ (refl, tt)

  round-Reads :
      (pn : PatchName) (found : List PatchName × Option ObjectId) (t : StackTransaction)
      → has_patch t pn ≡ true
      → Ends (check_merged_round host pn found) t (Reads t)
  unfolding check_merged_round
  round-Reads pn found t known = Ends-get _ _ (
      Ends-unwrap _ _ _
        (λ patch _. Ends-returns _ _ _ (is_no_change-Reads patch.commit _ t) (λ no_change.
          if-Ends no_change (Ends-pure _ _ refl) (
            Reads-then _ (λ _ _. tt) (parent-Reads patch.commit t)
              (λ parent. Ends-call _ _ _ (λ reverts. Ends-pure _ _ refl)))))
        (λ e. cc (e, known, has_patch-get_patch t pn)))

  loop-Reads :
      (pns : List PatchName) (found : List PatchName × Option ObjectId) (t : StackTransaction)
      → ((a : PatchName) → count a pns ≤ one_if (has_patch t a))
      → Ends (check_merged_loop host pns found) t (Reads t)
  unfolding check_merged_loop
  loop-Reads [] found t known = Ends-pure _ _ refl
  loop-Reads (pn ∷ pns) found t known =
      Reads-then _ (λ _ _. tt)
        (round-Reads pn found t (ground (arith, known pn, count-cons pn pn pns, text_eq_iff pn pn)))
        (λ found'. loop-Reads pns found' t (λ a. omega (arith, known a, count-cons a pn pns)))

  check_merged-Reads :
      (pns : List PatchName) (temp : Option ObjectId) (t : StackTransaction)
      → ((a : PatchName) → count a pns ≤ one_if (has_patch t a))
      → Ends (check_merged host pns temp) t (Reads t)
  unfolding check_merged
  check_merged-Reads pns temp t known = Ends-get _ _ (
      Ends-returns _ _ t
        (if-Ends (is_tree temp t.stack.branch_head.tree_id) (Ends-pure _ _ (refl, tt))
          (Ends-last _ _ (λ _. (refl, tt))))
        (λ _.
          Reads-then _ (λ _ _. tt)
            (loop-Reads (reverse pns) _ t (λ a. omega (arith, known a, count-reverse a pns)))
            (λ found. Ends-call _ _ _ (λ _. Ends-pure _ _ refl))))

  -- From a consistent transaction, where the given names are patches, each named once and none
  -- applied, `push_patches` never panics. If it returns, exactly those names have been appended to
  -- the applied patches, in their order, the other two lists are the old ones without them, the
  -- same names are patches, and the transaction is consistent. If it halts, the same holds for a
  -- first part of the names. It says nothing of a run in which an external call fails or a patch
  -- has no parent.
  pub push_patches-Ends :
      (pns : List PatchName) (checks_merged : Bool) (t : StackTransaction)
      → IsConsistent t
      → Pushable t pns
      → Ends (push_patches host pns checks_merged) t (PushesAll pns t)
  unfolding push_patches
  push_patches-Ends pns checks_merged t c p =
      Reads-then _ (λ _ _. tt)
        (if-Ends checks_merged (check_merged-Reads pns none t (λ a. omega (arith, p.counted a)))
          (Ends-pure _ _ refl))
        (λ found. push_loop-Ends host found.0 pns found.1 t c p)
