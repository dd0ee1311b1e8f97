-- ===== src/Stack/Transaction/Reorder/Hidden.antt =====
-- How `hide_patches` and `unhide_patches` of src/stack/transaction/mod.rs end.
use stgit.Prelude.{
  ◌+◌, ◌≤◌, not, arith, List, ◌++◌, none, some, text_Eq, filter, contains, contains-count, count,
  count-append, count-filter, one_if,
}
use stgit.Exec.{Error, failed, bail, checkout_conflicts, halt, panic, err}
use stgit.Host.{Host}
use stgit.Patch.Name.{PatchName}
use stgit.Stack.Transaction.Defs.{StackTransaction, has_patch, transaction_access}
use stgit.Stack.Transaction.Ends.{Ends, Ends-get, Ends-last, Ends-bind, Holds}
use stgit.Stack.Transaction.Consistent.{IsConsistent, count_all}
use stgit.Stack.Transaction.Reorder.{hide_patches, unhide_patches}
use stgit.Stack.Transaction.Reorder.Whole.{Arranges, Covers, reorder_patches-Ends}

Arranges-same :
    (A B : Type 0) (ns us hs : List PatchName) (t : StackTransaction) (e : Error)
    (u : StackTransaction)
    → Arranges {A = A} ns us hs t (err e) u
    → Holds (Arranges {A = B} ns us hs t) (err e) u
Arranges-same A B ns us hs t (failed message) u h = tt
Arranges-same A B ns us hs t (bail message) u h = tt
Arranges-same A B ns us hs t (checkout_conflicts message) u h = absurd h
Arranges-same A B ns us hs t (halt message conflicts) u h = h
Arranges-same A B ns us hs t panic u h = absurd h

-- The names are patches that are not hidden, each named once.
pub record Hideable (t : StackTransaction) (pns : List PatchName) : Type 0 where
  pub counted : (a : PatchName) → count a pns + count a t.hidden ≤ one_if (has_patch t a)

-- The names are hidden patches, each named once.
pub record Unhideable (t : StackTransaction) (pns : List PatchName) : Type 0 where
  pub counted : (a : PatchName) → count a pns ≤ count a t.hidden

abbrev pub kept : List PatchName → List PatchName → List PatchName
kept taken pns = filter (λ pn. not (contains taken pn)) pns

hide-Covers :
    (pns : List PatchName) {t : StackTransaction}
    → IsConsistent t
    → Hideable t pns
    → Covers (kept pns t.applied) (kept pns t.unapplied) (pns ++ t.hidden) t
hide-Covers pns {t} c v = record {
  covered = λ a. ground (
    arith,
    c.counted a,
    v.counted a,
    count_all a t,
    contains-count pns a,
    count-append a pns t.hidden,
    count-filter a (λ pn. not (contains pns pn)) t.applied,
    count-filter a (λ pn. not (contains pns pn)) t.unapplied,
  );
}

unhide-Covers :
    (pns : List PatchName) {t : StackTransaction}
    → IsConsistent t
    → Unhideable t pns
    → Covers t.applied (t.unapplied ++ pns) (kept pns t.hidden) t
unhide-Covers pns {t} c v = record {
  covered = λ a. ground (
    arith,
    c.counted a,
    v.counted a,
    count_all a t,
    contains-count pns a,
    count-append a t.unapplied pns,
    count-filter a (λ pn. not (contains pns pn)) t.hidden,
  );
}

module _ {W : Type 0} (host : Host W) where
  -- From a consistent transaction, where the given names are patches that are not hidden, each
  -- named once, `hide_patches` never panics, and if it returns, the names are put before the hidden
  -- patches, the applied and the unapplied patches are the old ones without them, in their order,
  -- the same names are patches and the transaction is consistent; a halt leaves a consistent
  -- transaction. It says nothing of a run in which an external call fails or a patch has no parent.
  pub hide_patches-Ends :
      (pns : List PatchName) (t : StackTransaction)
      → IsConsistent t
      → Hideable t pns
      → Ends
          (hide_patches host pns)
          t
          (Arranges (kept pns t.applied) (kept pns t.unapplied) (pns ++ t.hidden) t)
  unfolding hide_patches
  hide_patches-Ends pns t c v = Ends-get _ _ (
      Ends-bind _ _ _ _
        (reorder_patches-Ends host (some (kept pns t.applied)) (some (kept pns t.unapplied))
          (some (pns ++ t.hidden)) t c (hide-Covers pns c v))
        (λ _ u p. Ends-last _ _ (λ _. p))
        (Arranges-same (Unit {0}) (Unit {0}) (kept pns t.applied) (kept pns t.unapplied)
          (pns ++ t.hidden) t))

  -- From a consistent transaction, where the given names are hidden patches, each named once,
  -- `unhide_patches` never panics, and if it returns, the names have gone from the hidden patches
  -- to the end of the unapplied ones, nothing else has moved, the same names are patches and the
  -- transaction is consistent; a halt leaves a consistent transaction.
  pub unhide_patches-Ends :
      (pns : List PatchName) (t : StackTransaction)
      → IsConsistent t
      → Unhideable t pns
      → Ends
          (unhide_patches host pns)
          t
          (Arranges t.applied (t.unapplied ++ pns) (kept pns t.hidden) t)
  unfolding unhide_patches
  unhide_patches-Ends pns t c v = Ends-get _ _ (
      Ends-bind _ _ _ _
        (reorder_patches-Ends host none (some (t.unapplied ++ pns)) (some (kept pns t.hidden)) t c
          (unhide-Covers pns c v))
        (λ _ u p. Ends-last _ _ (λ _. p))
        (Arranges-same (Unit {0}) (Unit {0}) t.applied (t.unapplied ++ pns) (kept pns t.hidden) t))
