-- ===== src/Stack/Transaction/Names/Uncommit.antt =====
-- What `uncommit_patches` of src/stack/transaction/mod.rs does.
use stgit.Prelude.{
  ◌+◌, ◌≤◌, true, ◌≡◌, refl, sym, ap, subst, ◌∙◌, arith, List, [], ◌∷◌, ◌++◌, if◌then◌else◌,
  text_Eq, text_eq_iff, count, count-append, contains, contains-count, one_if, append-nil,
  append_assoc,
}
use stgit.Exec.{Result, ok, err}
use stgit.Host.{Host, ObjectId, Commit}
use stgit.Patch.Name.{PatchName}
use stgit.Stack.Transaction.Defs.{StackTransaction, has_patch, transaction_access}
use stgit.Stack.Transaction.Ends.{
  Post, Ends, Ends-get, Ends-put, Ends-put_last, Ends-call, Ends-pure, Ends-bind, Ends-mono, Holds,
}
use stgit.Stack.Transaction.Effects.{Exactly-ok}
use stgit.Stack.Transaction.Consistent.{IsConsistent, count_all, has_patch-with_updated}
use stgit.Stack.Transaction.Lists.{with_updated}
use stgit.Stack.Transaction.Names.{patch_at, uncommit_loop, uncommit_patches}

abbrev pub names_of : List (PatchName × ObjectId) → List PatchName
names_of [] = []
names_of ((pn, id) ∷ patches) = pn ∷ names_of patches

-- The names have become patches; the lists are as before.
record Known (names : List PatchName) (t u : StackTransaction) : Type 0 where
  pub stack : u.stack ≡ t.stack
  pub applied_eq : u.applied ≡ t.applied
  pub unapplied_eq : u.unapplied ≡ t.unapplied
  pub hidden_eq : u.hidden ≡ t.hidden
  pub has : (a : PatchName) → has_patch u a ≡ (if contains names a then true else has_patch t a)

Known-cons :
    (pn : PatchName) (names : List PatchName) (t u : StackTransaction) (commit : Commit)
    → Known names (with_updated t pn (patch_at commit)) u
    → Known (pn ∷ names) t u
unfolding contains
Known-cons pn names t u commit k = record {
  stack = k.stack;
  applied_eq = k.applied_eq;
  unapplied_eq = k.unapplied_eq;
  hidden_eq = k.hidden_eq;
  has = λ a. ground (
    arith,
    k.has a,
    has_patch-with_updated t pn (patch_at commit) a,
    text_eq_iff pn a,
    text_eq_iff a pn,
  );
}

abbrev Loops : List PatchName → List PatchName → StackTransaction → Post (List PatchName)
Loops acc names t (ok r) u = (r ≡ acc ++ names) × Known names t u
Loops acc names t (err e) u = ⊥

-- The names stand before the applied patches and are patches; nothing else has changed place.
pub record Uncommitted (names : List PatchName) (t u : StackTransaction) : Type 0 where
  pub stack : u.stack ≡ t.stack
  pub applied_eq : u.applied ≡ names ++ t.applied
  pub unapplied_eq : u.unapplied ≡ t.unapplied
  pub hidden_eq : u.hidden ≡ t.hidden
  pub has : (a : PatchName) → has_patch u a ≡ (if contains names a then true else has_patch t a)
  pub consistent : IsConsistent u

-- The method returns, unless a commit is not found or printing fails.
abbrev pub Uncommits : List PatchName → StackTransaction → Post (Unit {0})
Uncommits names t (ok done) u = Uncommitted names t u
Uncommits names t (err e) u = ⊥

Known-Uncommitted :
    (names : List PatchName) {t : StackTransaction} (u : StackTransaction)
    → IsConsistent t
    → ((a : PatchName) → count a names + one_if (has_patch t a) ≤ 1)
    → Known names t u
    → Uncommitted names t (record u { applied = names ++ u.applied })
unfolding has_patch
Known-Uncommitted names {t} u c fresh k =
    let v = record u { applied = names ++ u.applied } in
    record {
      stack = k.stack;
      applied_eq = ap (λ xs. names ++ xs) k.applied_eq;
      unapplied_eq = k.unapplied_eq;
      hidden_eq = k.hidden_eq;
      has = k.has;
      consistent = record {
        counted = λ a. ground (
          arith,
          c.counted a,
          fresh a,
          k.has a,
          count_all a t,
          count_all a v,
          count-append a names u.applied,
          contains-count names a,
          ap (count a) k.applied_eq,
          ap (count a) k.unapplied_eq,
          ap (count a) k.hidden_eq,
        );
      };
    }

module _ {W : Type 0} (host : Host W) where
  uncommit_loop-Ends :
      (patches : List (PatchName × ObjectId)) (acc : List PatchName) (t : StackTransaction)
      → Ends (uncommit_loop host patches acc) t (Loops acc (names_of patches) t)
  unfolding uncommit_loop contains
  uncommit_loop-Ends [] acc t = Ends-pure _ _ (
    sym (append-nil acc),
    record {
      stack = refl;
      applied_eq = refl;
      unapplied_eq = refl;
      hidden_eq = refl;
      has = λ a. refl;
    },
  )
  uncommit_loop-Ends ((pn, id) ∷ patches) acc t = Ends-call _ _ _ (λ commit. Ends-get _ _ (
      Ends-put _ _ _ (
        Ends-mono _ _ (later commit)
          (uncommit_loop-Ends patches (acc ++ pn ∷ []) (with_updated t pn (patch_at commit))))))
    where
      later :
          (commit : Commit) (r : Result (List PatchName)) (u : StackTransaction)
          → Loops (acc ++ pn ∷ []) (names_of patches) (with_updated t pn (patch_at commit)) r u
          → Holds (Loops acc (pn ∷ names_of patches) t) r u
      later commit (ok r) u (e, k) =
          (e ∙ append_assoc acc (pn ∷ []) (names_of patches), Known-cons pn _ t u commit k)
      later commit (err e) u h = absurd h

  -- From a consistent transaction, where the given names differ from each other and from every
  -- patch, `uncommit_patches` returns unless a commit is not found or printing fails: the names
  -- stand before the applied patches, in their order, and are patches, every other name is a patch
  -- as before, the other two lists are unchanged, and the transaction is consistent.
  pub uncommit_patches-Uncommits :
      (patches : List (PatchName × ObjectId)) (t : StackTransaction)
      → IsConsistent t
      → ((a : PatchName) → count a (names_of patches) + one_if (has_patch t a) ≤ 1)
      → Ends (uncommit_patches host patches) t (Uncommits (names_of patches) t)
  unfolding uncommit_patches
  uncommit_patches-Uncommits patches t c fresh =
      Ends-bind _ _ _ _ (uncommit_loop-Ends patches [] t)
        (λ names u (e, k). Ends-call _ _ _ (λ _. Ends-get _ _ (
          Ends-mono _ _
            (Exactly-ok tt _ (Uncommits (names_of patches) t) (
              subst
                (λ ns. Uncommitted (names_of patches) t (record u { applied = ns ++ u.applied }))
                (sym e) (Known-Uncommitted (names_of patches) u c fresh k)))
            (Ends-put_last (record u { applied = names ++ u.applied })))))
        (λ e u h. absurd h)
