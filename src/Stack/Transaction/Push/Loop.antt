-- ===== src/Stack/Transaction/Push/Loop.antt =====
-- How `push_patches` of src/stack/transaction/mod.rs ends.
use stgit.Prelude.{
  ◌+◌, ◌≤◌, true, false, not, ◌≡◌, refl, sym, ap, ◌∙◌, arith, List, [], ◌∷◌, ◌++◌, Option, ◌==◌,
  Option-cases, inl, inr, text_Eq, text_eq_iff, position, filter, count, contains, contains-count,
  contains-position, count-append, count-cons, count-nil, count-position-none, filter_ne-of_count,
  erase_idx-position, one_if, append_assoc, append-nil, is_empty,
}
use stgit.Exec.{Error, failed, bail, checkout_conflicts, halt, panic, Result, ok, err}
use stgit.Host.{ObjectId, Host}
use stgit.Patch.Name.{PatchName}
use stgit.Stack.Transaction.Defs.{StackTransaction, has_patch}
use stgit.Stack.Transaction.Ends.{Post, Ends, Ends-pure, Ends-bind, Ends-mono, Holds}
use stgit.Stack.Transaction.Consistent.{IsConsistent, count_all}
use stgit.Stack.Transaction.Push.{push_loop}
use stgit.Stack.Transaction.Push.Merging.{Frame}
use stgit.Stack.Transaction.Push.Outcome.{
  Moved, Moved-IsConsistent, Pushes, push_patch-Ends, unapplied_without, hidden_without,
}

-- The names are patches of the transaction, each named once, and none is applied.
pub record Pushable (t : StackTransaction) (pns : List PatchName) : Type 0 where
  pub counted : (a : PatchName) → count a t.applied + count a pns ≤ one_if (has_patch t a)

-- All the names have moved, in order, to the top of the applied patches. The other two lists keep
-- their order, and the transaction is consistent.
pub record PushedAll (pns : List PatchName) (t u : StackTransaction) : Type 0 where
  pub stack : u.stack ≡ t.stack
  pub applied : u.applied ≡ t.applied ++ pns
  pub unapplied : u.unapplied ≡ filter (λ x. not (contains pns x)) t.unapplied
  pub hidden : u.hidden ≡ filter (λ x. not (contains pns x)) t.hidden
  pub has : (a : PatchName) → has_patch u a ≡ has_patch t a
  pub consistent : IsConsistent u

filter_all : (xs : List PatchName) → filter (λ x. not (contains [] x)) xs ≡ xs
unfolding contains
filter_all [] = refl
filter_all (x ∷ xs) = ap (◌∷◌ x) (filter_all xs)

filter-filter_ne :
    (pn : PatchName) (pns xs : List PatchName)
    → filter (λ x. not (contains pns x)) (filter (λ x. not (x == pn)) xs)
      ≡ filter (λ x. not (contains (pn ∷ pns) x)) xs
unfolding contains
filter-filter_ne pn pns [] = refl
filter-filter_ne pn pns (x ∷ xs) = ground (arith, filter-filter_ne pn pns xs)

unapplied_without-filter :
    (pn : PatchName) (xs : List PatchName)
    → count pn xs ≤ 1
    → unapplied_without xs pn ≡ filter (λ x. not (x == pn)) xs
unapplied_without-filter pn xs h = elim (Option-cases (position (λ x. x == pn) xs)) [
  | inl e ↦ rw (e, unapplied_without) (sym (filter_ne-of_count pn xs (count-position-none pn xs e)))
  | inr (i, e) ↦ rw (e, unapplied_without) (erase_idx-position pn xs i h e)
]

hidden_without-filter :
    (pn : PatchName) (xs ys : List PatchName)
    → count pn xs + count pn ys ≤ 1
    → hidden_without xs ys pn ≡ filter (λ x. not (x == pn)) ys
hidden_without-filter pn xs ys h = elim (Option-cases (position (λ x. x == pn) xs)) [
  | inl e ↦ rw (e, hidden_without) (unapplied_without-filter pn ys (omega arith))
  | inr (i, e) ↦
      rw (e, hidden_without)
        (sym (
          filter_ne-of_count pn ys (ground (arith, contains-position pn xs, contains-count xs pn))))
]

PushedAll-nil : (t : StackTransaction) → IsConsistent t → PushedAll [] t t
PushedAll-nil t c = record {
  stack = refl;
  applied = sym (append-nil t.applied);
  unapplied = sym (filter_all t.unapplied);
  hidden = sym (filter_all t.hidden);
  has = λ a. refl;
  consistent = c;
}

PushedAll-cons :
    (pn : PatchName) (pns : List PatchName) {t u v : StackTransaction}
    → IsConsistent t
    → Moved pn t u
    → PushedAll pns u v
    → PushedAll (pn ∷ pns) t v
PushedAll-cons pn pns {t} {u} {v} c m p = record {
  stack = p.stack ∙ m.stack;
  applied = cc (p.applied, m.applied, append_assoc t.applied (pn ∷ []) pns);
  unapplied = cc (
    p.unapplied,
    m.unapplied,
    unapplied_without-filter pn t.unapplied (one.0),
    filter-filter_ne pn pns t.unapplied,
  );
  hidden = cc (
    p.hidden,
    m.hidden,
    hidden_without-filter pn t.unapplied t.hidden (one.1),
    filter-filter_ne pn pns t.hidden,
  );
  has = λ a. p.has a ∙ m.has a;
  consistent = p.consistent;
}
  where
    one : (count pn t.unapplied ≤ 1) × (count pn t.unapplied + count pn t.hidden ≤ 1)
    one = ground (arith, c.counted pn, count_all pn t)

-- Where `push_patches` ends: all the names have moved, or, at a halt, those before some name.
abbrev pub PushesAll : {A : Type 0} → List PatchName → StackTransaction → Post A
PushesAll pns t (ok a) u = PushedAll pns t u
PushesAll pns t (err (halt message conflicts)) u =
    (moved : List PatchName) × (rest : List PatchName) × (pns ≡ moved ++ rest) × PushedAll moved t u
PushesAll pns t (err (bail message)) u = Unit
PushesAll pns t (err _) u = ⊥

Frame-IsConsistent : {t u : StackTransaction} → Frame t u → IsConsistent t → IsConsistent u
Frame-IsConsistent {t} {u} f c = record {
  counted = λ a. ground (
    arith,
    c.counted a,
    f.has a,
    count_all a t,
    count_all a u,
    ap (count a) f.applied,
    ap (count a) f.unapplied,
    ap (count a) f.hidden,
  );
}

PushedAll-Frame : {t u : StackTransaction} → IsConsistent t → Frame t u → PushedAll [] t u
PushedAll-Frame {t} c f = record {
  stack = f.stack;
  applied = f.applied ∙ sym (append-nil t.applied);
  unapplied = f.unapplied ∙ sym (filter_all t.unapplied);
  hidden = f.hidden ∙ sym (filter_all t.hidden);
  has = f.has;
  consistent = Frame-IsConsistent f c;
}

-- The rest of the loop, behind one name that has moved.
PushesAll-weaken :
    {A : Type 0} (pn : PatchName) (pns : List PatchName) {t u : StackTransaction}
    → IsConsistent t
    → Moved pn t u
    → (r : Result A) (v : StackTransaction) → PushesAll pns u r v
    → Holds (PushesAll (pn ∷ pns) t) r v
PushesAll-weaken pn pns c m (ok a) v h = PushedAll-cons pn pns c m h
PushesAll-weaken pn pns c m (err (failed message)) v h = tt
PushesAll-weaken pn pns c m (err (bail message)) v h = tt
PushesAll-weaken pn pns c m (err (checkout_conflicts message)) v h = h
PushesAll-weaken pn pns c m (err (halt message conflicts)) v (moved, rest, e, p) =
    (pn ∷ moved, rest, ap (◌∷◌ pn) e, PushedAll-cons pn moved c m p)
PushesAll-weaken pn pns c m (err panic) v h = h

Pushes-stop :
    (A B : Type 0) (pn : PatchName) (pns : List PatchName) (t : StackTransaction)
    → IsConsistent t
    → (known : has_patch t pn ≡ true) (fresh : contains t.applied pn ≡ false)
    → (e : Error) (u : StackTransaction) → Pushes {A = A} pn t (err e) u
    → Holds (PushesAll {A = B} (pn ∷ pns) t) (err e) u
Pushes-stop A B pn pns t c known fresh (failed message) u h = tt
Pushes-stop A B pn pns t c known fresh (bail message) u h = tt
Pushes-stop A B pn pns t c known fresh (checkout_conflicts message) u h = h
Pushes-stop A B pn pns t c known fresh (halt message true) u h = (
  pn ∷ [],
  pns,
  refl,
  PushedAll-cons pn [] c h (PushedAll-nil u (Moved-IsConsistent known fresh h c)),
)
Pushes-stop A B pn pns t c known fresh (halt message false) u h =
    ([], pn ∷ pns, refl, PushedAll-Frame c h)
Pushes-stop A B pn pns t c known fresh panic u h = h

Pushable-head :
    (pn : PatchName) (pns : List PatchName) {t : StackTransaction}
    → Pushable t (pn ∷ pns)
    → (has_patch t pn ≡ true) × (contains t.applied pn ≡ false)
Pushable-head pn pns {t} p =
    ground
      (arith, p.counted pn, count-cons pn pn pns, text_eq_iff pn pn, contains-count t.applied pn)

Pushable-tail :
    (pn : PatchName) (pns : List PatchName) {t u : StackTransaction}
    → Pushable t (pn ∷ pns)
    → Moved pn t u
    → Pushable u pns
Pushable-tail pn pns {t} {u} p m = record {
  counted = λ a. ground (
    arith,
    p.counted a,
    m.has a,
    ap (count a) m.applied,
    count-append a t.applied (pn ∷ []),
    count-cons a pn pns,
    count-cons a pn [],
    count-nil a,
  );
}

module _ {W : Type 0} (host : Host W) where
  pub push_loop-Ends :
      (merged : List PatchName) (pns : List PatchName) (temp : Option ObjectId)
      (t : StackTransaction)
      → IsConsistent t
      → Pushable t pns
      → Ends (push_loop host merged pns temp) t (PushesAll pns t)
  unfolding push_loop
  push_loop-Ends merged [] temp t c p = Ends-pure _ _ (PushedAll-nil t c)
  push_loop-Ends merged (pn ∷ pns) temp t c p =
      let (known, fresh) = Pushable-head pn pns p in
      Ends-bind _ _ _ _ (push_patch-Ends host pn (contains merged pn) (is_empty pns) temp t c known)
        (λ temp' u m. Ends-mono _ _ (PushesAll-weaken pn pns c m) (
          push_loop-Ends merged pns temp' u (Moved-IsConsistent known fresh m c)
            (Pushable-tail pn pns p m)))
        (Pushes-stop (Option ObjectId) (Unit {0}) pn pns t c known fresh)
