-- ===== src/Stack/Transaction/Reorder/Whole.antt =====
-- How `reorder_patches` of src/stack/transaction/mod.rs ends.
use stgit.Prelude.{◌+◌, ◌≡◌, refl, ap, ◌∙◌, arith, List, Option, none, some, text_Eq, count, one_if}
use stgit.Exec.{Error, failed, bail, checkout_conflicts, halt, panic, ok, err, ◌>>=◌, ◌>>◌}
use stgit.Host.{Host}
use stgit.Patch.Name.{PatchName}
use stgit.Stack.Transaction.Defs.{StackTransaction, has_patch, transaction_access, get, put}
use stgit.Stack.Transaction.Ends.{Post, Ends, Ends-pure, Ends-bind, Holds, Exactly}
use stgit.Stack.Transaction.Consistent.{IsConsistent, count_all}
use stgit.Stack.Transaction.Reorder.{reorder_patches}
use stgit.Stack.Transaction.Reorder.Applied.{
  Reorders, reordered_unapplied, reordered_hidden, reorder_applied-Ends,
}

-- A list that is given, or the list that stays.
abbrev pub given : Option (List PatchName) → List PatchName → List PatchName
given (some pns) stays = pns
given none stays = stays

-- The unapplied and the hidden patches behind the first part of `reorder_patches`.
abbrev pub unapplied_after : Option (List PatchName) → StackTransaction → List PatchName
unapplied_after (some applied) t = reordered_unapplied t applied
unapplied_after none t = t.unapplied

abbrev pub hidden_after : Option (List PatchName) → StackTransaction → List PatchName
hidden_after (some applied) t = reordered_hidden t applied
hidden_after none t = t.hidden

pub record Arranged (applied unapplied hidden : List PatchName) (t u : StackTransaction)
    : Type 0 where
  pub stack : u.stack ≡ t.stack
  pub applied_eq : u.applied ≡ applied
  pub unapplied_eq : u.unapplied ≡ unapplied
  pub hidden_eq : u.hidden ≡ hidden
  pub has : (a : PatchName) → has_patch u a ≡ has_patch t a
  pub consistent : IsConsistent u

-- The three lists are as they are wanted, or the method halts in a consistent transaction. It does
-- not panic.
abbrev pub Arranges :
    {A : Type 0} → List PatchName → List PatchName → List PatchName → StackTransaction → Post A
Arranges applied unapplied hidden t (ok a) u = Arranged applied unapplied hidden t u
Arranges applied unapplied hidden t (err (halt message conflicts)) u = IsConsistent u
Arranges applied unapplied hidden t (err (bail message)) u = Unit
Arranges applied unapplied hidden t (err _) u = ⊥

-- The three lists name every patch once, and nothing else.
pub record Covers (applied unapplied hidden : List PatchName) (t : StackTransaction) : Type 0 where
  pub covered :
      (a : PatchName)
      → count a applied + count a unapplied + count a hidden ≡ one_if (has_patch t a)

-- The two last steps of `reorder_patches`.
abbrev pub with_lists :
    Option (List PatchName) → Option (List PatchName) → StackTransaction → StackTransaction
with_lists unapplied hidden t = record t {
  unapplied = given unapplied t.unapplied;
  hidden = given hidden t.hidden;
}

Arranged-lists :
    {applied lists_u lists_h : List PatchName} {t : StackTransaction} (u : StackTransaction)
    → Covers applied lists_u lists_h t
    → u.stack ≡ t.stack
    → u.applied ≡ applied
    → u.unapplied ≡ lists_u
    → u.hidden ≡ lists_h
    → ((a : PatchName) → has_patch u a ≡ has_patch t a)
    → Arranged applied lists_u lists_h t u
Arranged-lists u c s ea eu eh has = record {
  stack = s;
  applied_eq = ea;
  unapplied_eq = eu;
  hidden_eq = eh;
  has = has;
  consistent = record {
    counted = λ a. ground (
      arith,
      c.covered a,
      has a,
      count_all a u,
      ap (count a) ea,
      ap (count a) eu,
      ap (count a) eh,
    );
  };
}

Arranges-stop :
    (A B : Type 0) (applied ns us hs : List PatchName) (t : StackTransaction) (e : Error)
    (u : StackTransaction)
    → Reorders {A = A} applied t (err e) u
    → Holds (Arranges {A = B} ns us hs t) (err e) u
Arranges-stop A B applied ns us hs t (failed message) u h = tt
Arranges-stop A B applied ns us hs t (bail message) u h = tt
Arranges-stop A B applied ns us hs t (checkout_conflicts message) u h = absurd h
Arranges-stop A B applied ns us hs t (halt message conflicts) u h = h
Arranges-stop A B applied ns us hs t panic u h = absurd h

with_lists-has :
    (us hs : Option (List PatchName)) (u : StackTransaction) (a : PatchName)
    → has_patch (with_lists us hs u) a ≡ has_patch u a
unfolding has_patch
with_lists-has us hs u a = refl

module _ {W : Type 0} (host : Host W) where
  lists-Ends :
      (us hs : Option (List PatchName)) (u : StackTransaction) (Q : Post (Unit {0}))
      → Q (ok tt) (with_lists us hs u)
      → Ends {W = W}
          (do
            self ← get
            put (elim us [ some unapplied' ↦ record self { unapplied = unapplied' } | none ↦ self ])
            self' ← get
            put (elim hs [ some hidden' ↦ record self' { hidden = hidden' } | none ↦ self' ]))
          u
          Q
  unfolding ◌>>=◌ get put
  lists-Ends none none u Q h = record { at = λ w. h }
  lists-Ends none (some hs) u Q h = record { at = λ w. h }
  lists-Ends (some us) none u Q h = record { at = λ w. h }
  lists-Ends (some us) (some hs) u Q h = record { at = λ w. h }

  -- From a consistent transaction, where the three wanted lists (a list that is not given stays as
  -- the reordering of the applied patches leaves it) together name every patch once and nothing
  -- else, `reorder_patches` never panics, and if it returns, the three lists are the wanted ones,
  -- the same names are patches and the transaction is consistent; a halt leaves a consistent
  -- transaction. It says nothing of a run in which an external call fails or a patch has no parent.
  pub reorder_patches-Ends :
      (applied unapplied hidden : Option (List PatchName)) (t : StackTransaction)
      → IsConsistent t
      → Covers
          (given applied t.applied)
          (given unapplied (unapplied_after applied t))
          (given hidden (hidden_after applied t))
          t
      → Ends (reorder_patches host applied unapplied hidden) t (
          Arranges
            (given applied t.applied)
            (given unapplied (unapplied_after applied t))
            (given hidden (hidden_after applied t))
            t)
  unfolding reorder_patches
  reorder_patches-Ends (some applied) us hs t c v =
      Ends-bind _ _ _ _ (reorder_applied-Ends host applied t c (λ a. ground (arith, v.covered a)))
        (λ _ u p. lists-Ends us hs u _ (
          Arranged-lists (with_lists us hs u) v p.stack p.applied_eq (ap (given us) p.unapplied_eq)
            (ap (given hs) p.hidden_eq) (λ a. with_lists-has us hs u a ∙ p.has a)))
        (Arranges-stop (Unit {0}) (Unit {0}) applied applied
          (given us (reordered_unapplied t applied)) (given hs (reordered_hidden t applied)) t)
  reorder_patches-Ends none us hs t c v =
      Ends-bind (Exactly (ok tt) t) _ _ _ (Ends-pure _ _ (refl, refl))
        (λ _ u p. lists-Ends us hs u _ (
          Arranged-lists (with_lists us hs u) v (ap (λ x. x.stack) p.1) (ap (λ x. x.applied) p.1)
            (ap (λ x. given us x.unapplied) p.1) (ap (λ x. given hs x.hidden) p.1)
            (λ a. with_lists-has us hs u a ∙ ap (λ x. has_patch x a) p.1)))
        (λ e u p. cc (p.0))
