-- ===== src/Stack/Transaction/Reorder/Applied.antt =====
-- How `reorder_patches` of src/stack/transaction/mod.rs ends.
use stgit.Prelude.{
  ℕ, ◌≤◌, true, false, not, ◌≡◌, refl, sym, ap, subst, ◌∙◌, arith, List, ◌++◌, none, some, text_Eq,
  take, drop, filter, contains, contains-count, count, count-take-drop, filter_all-of_counts,
  filter_none-of_counts, take-append-drop, one_if, get_last?, is_empty,
}
use stgit.Exec.{Error, failed, bail, checkout_conflicts, halt, panic, Result, ok, err, pure}
use stgit.Host.{Host, pushed, unmodified}
use stgit.Patch.Name.{PatchName}
use stgit.Stack.Transaction.Defs.{StackTransaction, has_patch, transaction_access, print}
use stgit.Stack.Transaction.Ends.{
  Post, Returns, Ends, Ends-get, Ends-pure, Ends-last, Ends-bind, Ends-mono, Holds, Ends-exactly,
  Ends-unwrap-some,
}
use stgit.Stack.Transaction.Consistent.{IsConsistent, count_all, popped_state-IsConsistent}
use stgit.Stack.Transaction.Lists.{popped_state}
use stgit.Stack.Transaction.Lists.Pop.{pop_patches-Ends}
use stgit.Stack.Transaction.Push.Merging.{if-Ends}
use stgit.Stack.Transaction.Push.Loop.{Pushable, PushedAll, PushesAll}
use stgit.Stack.Transaction.Push.Merged.{push_patches-Ends}
use stgit.Stack.Transaction.Reorder.{common_prefix, reorder_applied}
use stgit.Stack.Transaction.Reorder.Prefix.{names_eq_refl, take-common_prefix, split_off_first-drop}

-- The transaction behind the pops of `reorder_patches`.
abbrev pub reorder_popped : StackTransaction → ℕ → StackTransaction
reorder_popped t k = record t {
  applied = take k t.applied;
  unapplied = drop k t.applied ++ t.unapplied;
}

applied_once : {t : StackTransaction} → IsConsistent t → (a : PatchName) → count a t.applied ≤ 1
applied_once {t} c a = ground (arith, c.counted a, count_all a t)

popped_state-drop :
    (k : ℕ) {t : StackTransaction}
    → IsConsistent t
    → popped_state (λ pn. contains (drop k t.applied) pn) t ≡ reorder_popped t k
popped_state-drop k {t} c = rw (split_off_first-drop k t.applied (applied_once c)) (
    rw
      (
        filter_none-of_counts (λ pn. not (contains (drop k t.applied) pn)) (drop k t.applied)
            (λ a e. ground (arith, contains-count (drop k t.applied) a)),
        filter_all-of_counts (λ pn. contains (drop k t.applied) pn) (drop k t.applied)
            (λ a e. ground (arith, contains-count (drop k t.applied) a)),
      )
      refl)

-- What `reorder_patches` leaves of the unapplied patches and of the hidden ones, where it gets a new
-- order of the applied ones: the popped ones come first, and those that were pushed are gone.
abbrev pub reordered_unapplied : StackTransaction → List PatchName → List PatchName
reordered_unapplied t applied =
    let k = common_prefix t.applied applied in
    filter (λ x. not (contains (drop k applied) x)) (drop k t.applied ++ t.unapplied)

abbrev pub reordered_hidden : StackTransaction → List PatchName → List PatchName
reordered_hidden t applied =
    let k = common_prefix t.applied applied in
    filter (λ x. not (contains (drop k applied) x)) t.hidden

pub record Reordered (applied : List PatchName) (t u : StackTransaction) : Type 0 where
  pub stack : u.stack ≡ t.stack
  pub applied_eq : u.applied ≡ applied
  pub unapplied_eq : u.unapplied ≡ reordered_unapplied t applied
  pub hidden_eq : u.hidden ≡ reordered_hidden t applied
  pub has : (a : PatchName) → has_patch u a ≡ has_patch t a
  pub consistent : IsConsistent u

PushedAll-Reordered :
    (applied : List PatchName) {t u : StackTransaction}
    → PushedAll
        (drop (common_prefix t.applied applied) applied)
        (reorder_popped t (common_prefix t.applied applied))
        u
    → ((a : PatchName)
        → has_patch (reorder_popped t (common_prefix t.applied applied)) a ≡ has_patch t a)
    → Reordered applied t u
PushedAll-Reordered applied {t} p same = record {
  stack = p.stack;
  applied_eq =
      p.applied
      ∙ ap (λ xs. xs ++ drop (common_prefix t.applied applied) applied)
          (take-common_prefix t.applied applied)
      ∙ take-append-drop (common_prefix t.applied applied) applied;
  unapplied_eq = p.unapplied;
  hidden_eq = p.hidden;
  has = λ a. p.has a ∙ same a;
  consistent = p.consistent;
}

-- Where the reordering of the applied patches ends. A halt leaves a consistent transaction.
abbrev pub Reorders : {A : Type 0} → List PatchName → StackTransaction → Post A
Reorders applied t (ok a) u = Reordered applied t u
Reorders applied t (err (halt message conflicts)) u = IsConsistent u
Reorders applied t (err (bail message)) u = Unit
Reorders applied t (err _) u = ⊥

PushesAll-Reorders :
    (A B : Type 0) (pns : List PatchName) (applied : List PatchName) (t u : StackTransaction)
    (e : Error) (v : StackTransaction)
    → PushesAll {A = A} pns u (err e) v
    → Holds (Reorders {A = B} applied t) (err e) v
PushesAll-Reorders A B pns applied t u (failed message) v h = tt
PushesAll-Reorders A B pns applied t u (bail message) v h = tt
PushesAll-Reorders A B pns applied t u (checkout_conflicts message) v h = absurd h
PushesAll-Reorders A B pns applied t u (halt message conflicts) v h = h.3.consistent
PushesAll-Reorders A B pns applied t u panic v h = absurd h

Returns-Reorders :
    (applied : List PatchName) (t u : StackTransaction)
    → Reordered applied t u
    → (r : Result (Unit {0})) (v : StackTransaction) → Returns u r v
    → Holds (Reorders applied t) r v
Returns-Reorders applied t u p (ok a) v h = subst (Reordered applied t) (sym h.0) p
Returns-Reorders applied t u p (err e) v h = absurd h.1

reorder_popped-has :
    (t : StackTransaction) (k : ℕ) (a : PatchName)
    → has_patch (reorder_popped t k) a ≡ has_patch t a
unfolding has_patch
reorder_popped-has t k a = refl

reorder_popped-Pushable :
    (applied : List PatchName) (t : StackTransaction)
    → ((a : PatchName) → count a applied ≤ one_if (has_patch t a))
    → Pushable
        (reorder_popped t (common_prefix t.applied applied))
        (drop (common_prefix t.applied applied) applied)
reorder_popped-Pushable applied t known = record {
  counted = λ a. ground (
    arith,
    known a,
    reorder_popped-has t (common_prefix t.applied applied) a,
    ap (count a) (take-common_prefix t.applied applied),
    count-take-drop a (common_prefix t.applied applied) applied,
  );
}

module _ {W : Type 0} (host : Host W) where
  print_last-Returns :
      (applied : List PatchName) (t : StackTransaction)
      → Ends {W = W}
          (elim (get_last? applied) [
            | some last ↦ print host (pushed last unmodified true)
            | none ↦ pure tt
          ])
          t
          (Returns t)
  print_last-Returns applied t =
      elim (get_last? applied)
        as (λ o.
          Ends {W = W}
            (elim o [ some last ↦ print host (pushed last unmodified true) | none ↦ pure tt ]) t
            (Returns t)) [
              | some last ↦ Ends-last _ _ (λ _. (refl, tt))
              | none ↦ Ends-pure _ _ (refl, tt)
            ]

  pub reorder_applied-Ends :
      (applied : List PatchName) (t : StackTransaction)
      → IsConsistent t
      → ((a : PatchName) → count a applied ≤ one_if (has_patch t a))
      → Ends (reorder_applied host applied) t (Reorders applied t)
  unfolding reorder_applied
  reorder_applied-Ends applied t c known =
      let k = common_prefix t.applied applied in
      let popped = popped_state-drop k c in
      Ends-get _ _ (
        Ends-exactly _ _ _ _ _
          (rw popped at (pop_patches-Ends host (λ pn. contains (drop k t.applied) pn) t))
          (Ends-bind _ _ _ _
            (push_patches-Ends host (drop k applied) false (reorder_popped t k)
              (rw popped at (popped_state-IsConsistent (λ pn. contains (drop k t.applied) pn) c))
              (reorder_popped-Pushable applied t known))
            (λ _ u p.
              let r = PushedAll-Reordered applied p (reorder_popped-has t k) in
              Ends-get _ _ (
                Ends-unwrap-some _ _ _ tt (rw (r.applied_eq, names_eq_refl applied) refl) (
                  Ends-mono (Returns u) _ (Returns-Reorders applied t u r) (
                    if-Ends (is_empty (drop k applied)) (print_last-Returns applied u)
                      (Ends-pure _ _ (refl, tt))))))
            (PushesAll-Reorders (Unit {0}) (Unit {0}) (drop k applied) applied t
              (reorder_popped t k))))
