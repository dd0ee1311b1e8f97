-- ===== src/Stack/Transaction/Effects.antt =====
-- What `pop_patches` and `delete_patches` of src/stack/transaction/mod.rs do to a consistent
-- transaction.
use stgit.Prelude.{
  Bool, true, false, not, ◌≡◌, refl, sym, arith, List, ◌++◌, text_Eq, filter, contains,
  contains-count, if◌then◌else◌,
}
use mathlib.Core.Path.{subst₂}
use stgit.Exec.{Result, ok, err}
use stgit.Host.{Host}
use stgit.Patch.Name.{PatchName}
use stgit.Stack.Access.{all_patches}
use stgit.Stack.Transaction.Defs.{StackTransaction, has_patch, transaction_access}
use stgit.Stack.Transaction.Ends.{Post, Ends, Exactly, Ends-mono, Holds}
use stgit.Stack.Transaction.Lists.{split_off_first, popped_state, pop_patches, delete_patches}
use stgit.Stack.Transaction.Lists.Pop.{pop_patches-Ends}
use stgit.Stack.Transaction.Lists.Delete.{deleted_state, delete_patches-Ends}
use stgit.Stack.Transaction.Consistent.{
  IsConsistent, count-split_off_first_kept, popped_state-IsConsistent, has_patch-deleted_state,
  deleted_state-IsConsistent, split_off_first-append_eq,
}

-- The applied patches from the first requested one on are popped. The incidental ones come first
-- in the unapplied list, then the requested ones; no patch is lost or gained.
pub record Popped (should_pop : PatchName → Bool) (t : StackTransaction)
    (incidental : List PatchName) (u : StackTransaction) : Type 0 where
  pub stack : u.stack ≡ t.stack
  pub split : t.applied ≡ u.applied ++ (split_off_first should_pop t.applied).1
  pub none_kept : (a : PatchName) → should_pop a ≡ true → contains u.applied a ≡ false
  pub incidental_eq :
      incidental ≡ filter (λ pn. not (should_pop pn)) (split_off_first should_pop t.applied).1
  pub unapplied_eq :
      u.unapplied
      ≡ incidental ++ (filter should_pop (split_off_first should_pop t.applied).1 ++ t.unapplied)
  pub hidden_eq : u.hidden ≡ t.hidden
  pub has : (a : PatchName) → has_patch u a ≡ has_patch t a
  pub consistent : IsConsistent u

-- A deleted patch is in no list and is no patch any more; the others stay.
pub record Deleted (should_delete : PatchName → Bool) (t : StackTransaction)
    (incidental : List PatchName) (u : StackTransaction) : Type 0 where
  pub stack : u.stack ≡ t.stack
  pub split : t.applied ≡ u.applied ++ (split_off_first should_delete t.applied).1
  pub incidental_eq :
      incidental ≡ filter (λ pn. not (should_delete pn)) (split_off_first should_delete t.applied).1
  pub unapplied_eq : u.unapplied ≡ incidental ++ filter (λ pn. not (should_delete pn)) t.unapplied
  pub hidden_eq : u.hidden ≡ filter (λ pn. not (should_delete pn)) t.hidden
  pub has : (a : PatchName) → has_patch u a ≡ (if should_delete a then false else has_patch t a)
  pub gone : (a : PatchName) → should_delete a ≡ true → contains (all_patches u) a ≡ false
  pub consistent : IsConsistent u

-- The method returns, unless printing fails.
abbrev pub Pops : (PatchName → Bool) → StackTransaction → Post (List PatchName)
Pops should_pop t (ok incidental) u = Popped should_pop t incidental u
Pops should_pop t (err e) u = ⊥

abbrev pub Deletes : (PatchName → Bool) → StackTransaction → Post (List PatchName)
Deletes should_delete t (ok incidental) u = Deleted should_delete t incidental u
Deletes should_delete t (err e) u = ⊥

popped_state-Popped :
    (p : PatchName → Bool) {t : StackTransaction}
    → IsConsistent t
    → Popped p t (filter (λ pn. not (p pn)) (split_off_first p t.applied).1) (popped_state p t)
unfolding has_patch
popped_state-Popped p {t} c = record {
  stack = refl;
  split = sym (split_off_first-append_eq p t.applied);
  none_kept = λ a h. ground (
    arith,
    count-split_off_first_kept a p t.applied h,
    contains-count (split_off_first p t.applied).0 a,
  );
  incidental_eq = refl;
  unapplied_eq = refl;
  hidden_eq = refl;
  has = λ a. refl;
  consistent = popped_state-IsConsistent p c;
}

deleted_state-Deleted :
    (p : PatchName → Bool) {t : StackTransaction}
    → IsConsistent t
    → Deleted p t (filter (λ pn. not (p pn)) (split_off_first p t.applied).1) (deleted_state p t)
deleted_state-Deleted p {t} c =
    let d = deleted_state-IsConsistent p c in
    record {
      stack = refl;
      split = sym (split_off_first-append_eq p t.applied);
      incidental_eq = refl;
      unapplied_eq = refl;
      hidden_eq = refl;
      has = has_patch-deleted_state p c;
      gone = λ a h. ground (
        arith,
        d.counted a,
        has_patch-deleted_state p c a,
        contains-count (all_patches (deleted_state p t)) a,
      );
      consistent = d;
    }

pub Exactly-ok :
    {A : Type 0} (a : A) (u : StackTransaction) (Q : Post A)
    → Q (ok a) u
    → (r : Result A) (v : StackTransaction) → Exactly (ok a) u r v
    → Holds Q r v
Exactly-ok {A = A} a u Q q r v (e, f) =
    subst₂ (λ (r' : Result A) v'. Holds Q r' v') (sym e) (sym f) q

-- From a consistent transaction, `pop_patches` returns unless printing fails: it takes off the
-- applied patches from the first requested one on, none of those below being requested; the
-- incidental ones and then the requested ones go before the other unapplied patches, each part in
-- its old order. The transaction is consistent and has the same patches.
pub pop_patches-Pops :
    {W : Type 0} (host : Host W) (should_pop : PatchName → Bool) (t : StackTransaction)
    → IsConsistent t
    → Ends (pop_patches host should_pop) t (Pops should_pop t)
pop_patches-Pops host should_pop t c =
    Ends-mono _ _ (Exactly-ok _ _ (Pops should_pop t) (popped_state-Popped should_pop c))
      (pop_patches-Ends host should_pop t)

-- From a consistent transaction, `delete_patches` returns unless printing fails: a name that is to
-- be deleted is in no list and is no patch any more, every other name is a patch as before; the
-- patches applied above the first deleted one are popped onto the unapplied ones, and the three
-- lists keep their order otherwise. The transaction is consistent.
pub delete_patches-Deletes :
    {W : Type 0} (host : Host W) (should_delete : PatchName → Bool) (t : StackTransaction)
    → IsConsistent t
    → Ends (delete_patches host should_delete) t (Deletes should_delete t)
delete_patches-Deletes host should_delete t c =
    Ends-mono _ _ (Exactly-ok _ _ (Deletes should_delete t) (deleted_state-Deleted should_delete c))
      (delete_patches-Ends host should_delete t)
