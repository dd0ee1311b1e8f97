-- ===== src/Stack/Transaction/Names/Repair.antt =====
-- What `repair_appliedness` of src/stack/transaction/mod.rs does.
use stgit.Prelude.{
  ◌+◌, ◌≤◌, Bool, true, false, not, ◌≡◌, refl, sym, ap, ◌∙◌, arith, List, [], ◌∷◌, ◌++◌, none, some,
  ◌==◌, text_Eq, text_eq_iff, count, count-nil, count-append, count-cons, count-filter, contains,
  contains-count, filter, one_if, is_empty, append-nil, append_assoc,
}
use stgit.Exec.{panic, ok, err}
use stgit.Patch.Name.{PatchName}
use stgit.Stack.Access.{all_patches}
use stgit.Stack.Transaction.Defs.{StackTransaction, has_patch, transaction_access, assert, unwrap}
use stgit.Stack.Transaction.Ends.{Post, Ends, Ends-get, Ends-put, Ends-unwrap}
use stgit.Stack.Transaction.Consistent.{IsConsistent, count_all}
use stgit.Stack.Transaction.Names.{index_set_onto, index_set, shift_take_all, repair_appliedness}
use stgit.Stack.Transaction.Reorder.Whole.{Covers}

-- Names that differ are all kept.
index_set_onto_append :
    (acc xs : List PatchName)
    → ((a : PatchName) → count a acc + count a xs ≤ 1)
    → index_set_onto acc xs ≡ acc ++ xs
unfolding index_set_onto
index_set_onto_append acc [] once = sym (append-nil acc)
index_set_onto_append acc (x ∷ xs) once =
    let fresh : contains acc x ≡ false =
      ground (arith, once x, contains-count acc x, count-cons x x xs, text_eq_iff x x) in
    rw fresh (
      index_set_onto_append (acc ++ x ∷ []) xs (λ a. ground (
        arith,
        once a,
        count-append a acc (x ∷ []),
        count-cons a x xs,
        count-cons a x [],
        count-nil a,
      ))
      ∙ append_assoc acc (x ∷ []) xs)

-- Each name is taken from the old ones once.
shift_take_all-some :
    (a : PatchName) (pns old left : List PatchName)
    → ((b : PatchName) → count b old ≤ 1)
    → shift_take_all pns old ≡ some left
    → count a pns + count a left ≡ count a old
unfolding shift_take_all count
shift_take_all-some a [] old left once e = ground arith
shift_take_all-some a (pn ∷ pns) old left once e =
    let rest = filter (λ x. not (x == pn)) old in
    ground (
      arith,
      once a,
      once pn,
      count-filter a (λ x. not (x == pn)) old,
      contains-count old pn,
      text_eq_iff a pn,
      text_eq_iff pn a,
      shift_take_all-some a pns rest left
          (λ b. ground (arith, once b, count-filter b (λ x. not (x == pn)) old)),
    )

shift_take_all-none :
    (pns old : List PatchName)
    → ((b : PatchName) → count b old ≤ 1)
    → ((b : PatchName) → count b pns ≤ count b old)
    → shift_take_all pns old ≡ none
    → ⊥
unfolding shift_take_all count
shift_take_all-none [] old once covered e = cc
shift_take_all-none (pn ∷ pns) old once covered e =
    let rest = filter (λ x. not (x == pn)) old in
    ground (
      arith,
      covered pn,
      contains-count old pn,
      text_eq_iff pn pn,
      shift_take_all-none pns rest
          (λ b. ground (arith, once b, count-filter b (λ x. not (x == pn)) old))
          (λ b.
            ground (
              arith,
              once b,
              covered b,
              count-filter b (λ x. not (x == pn)) old,
              text_eq_iff b pn,
            )),
    )

-- The lists are the given ones.
pub record Repaired (applied unapplied hidden : List PatchName) (t u : StackTransaction)
    : Type 0 where
  pub stack : u.stack ≡ t.stack
  pub applied_eq : u.applied ≡ applied
  pub unapplied_eq : u.unapplied ≡ unapplied
  pub hidden_eq : u.hidden ≡ hidden
  pub has : (a : PatchName) → has_patch u a ≡ has_patch t a
  pub consistent : IsConsistent u

-- The method panics only where the given lists do not name every patch once and nothing else.
abbrev pub Repairs :
    List PatchName → List PatchName → List PatchName → StackTransaction → Post (Unit {0})
Repairs applied unapplied hidden t (ok done) u = Repaired applied unapplied hidden t u
Repairs applied unapplied hidden t (err panic) u = Covers applied unapplied hidden t → ⊥
Repairs applied unapplied hidden t (err e) u = ⊥

counted_once :
    {t : StackTransaction} → IsConsistent t → (a : PatchName) → count a (all_patches t) ≤ 1
counted_once c a = ground (arith, c.counted a)

Ends-assert :
    {W : Type 0} {t : StackTransaction} (Q : Post (Unit {0})) (b : Bool)
    → (b ≡ true → Q (ok tt) t)
    → (b ≡ false → Q (err panic) t)
    → Ends {W = W} (assert b) t Q
unfolding unwrap
Ends-assert Q true h k = record { at = λ w. h refl }
Ends-assert Q false h k = record { at = λ w. k refl }

-- The transaction with the given lists.
abbrev repaired :
    List PatchName → List PatchName → List PatchName → StackTransaction → StackTransaction
repaired applied unapplied hidden t = record t {
  applied = applied;
  unapplied = unapplied;
  hidden = hidden;
}

nothing_left-Repaired :
    (applied unapplied hidden : List PatchName) (t : StackTransaction)
    → ((a : PatchName)
        → count a applied + (count a unapplied + count a hidden) ≡ one_if (has_patch t a))
    → Repaired applied unapplied hidden t (repaired applied unapplied hidden t)
unfolding has_patch
nothing_left-Repaired applied unapplied hidden t counts = record {
  stack = refl;
  applied_eq = refl;
  unapplied_eq = refl;
  hidden_eq = refl;
  has = λ a. refl;
  consistent = record {
    counted = λ a. ground (arith, counts a, count_all a (repaired applied unapplied hidden t));
  };
}

module _ {W : Type 0} where
  -- The last assertion, where the names account for the patches up to those that are left.
  left-Repairs :
      (applied unapplied hidden left : List PatchName) (t : StackTransaction)
      → ((a : PatchName)
          → count a applied + (count a unapplied + count a hidden) + count a left
            ≡ one_if (has_patch t a))
      → Ends {W = W}
          (assert (is_empty left))
          (repaired applied unapplied hidden t)
          (Repairs applied unapplied hidden t)
  left-Repairs applied unapplied hidden [] t counts =
      Ends-assert _ true
        (λ _.
          nothing_left-Repaired applied unapplied hidden t
            (λ a. omega (arith, counts a, count-nil a)))
        (λ e. cc)
  left-Repairs applied unapplied hidden (x ∷ left) t counts =
      Ends-assert _ false (λ e. cc)
        (λ _ v. ground (arith, counts x, v.covered x, count-cons x x left, text_eq_iff x x))

  -- From a consistent transaction, `repair_appliedness` either returns, the three lists being the
  -- given ones, the same names being patches and the transaction consistent, or it panics, and then
  -- the given lists do not together name every patch once and nothing else.
  pub repair_appliedness-Repairs :
      (applied unapplied hidden : List PatchName) (t : StackTransaction)
      → IsConsistent t
      → Ends {W = W}
          (repair_appliedness applied unapplied hidden)
          t
          (Repairs applied unapplied hidden t)
  unfolding repair_appliedness
  repair_appliedness-Repairs applied unapplied hidden t c =
      let names = applied ++ (unapplied ++ hidden) in
      let old = index_set (all_patches t) in
      let same : old ≡ all_patches t =
        index_set_onto_append [] (all_patches t)
          (λ a. ground (arith, counted_once c a, count-nil a)) in
      let once : (a : PatchName) → count a old ≤ 1 =
        λ a. ground (arith, counted_once c a, ap (count a) same) in
      let counts : (a : PatchName)
          → count a names ≡ count a applied + (count a unapplied + count a hidden) =
        λ a.
          omega (
            arith,
            count-append a applied (unapplied ++ hidden),
            count-append a unapplied hidden,
          ) in
      Ends-get _ _ (
        Ends-put _ _ _ (
          Ends-unwrap _ _ _
            (λ left e. left-Repairs applied unapplied hidden left t (λ a. ground (
              arith,
              counts a,
              c.counted a,
              ap (count a) same,
              shift_take_all-some a names old left once e,
            )))
            (λ e v.
              shift_take_all-none names old once
                (λ b. ground (arith, counts b, v.covered b, c.counted b, ap (count b) same)) e)))
