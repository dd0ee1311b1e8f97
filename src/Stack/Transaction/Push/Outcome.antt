-- ===== src/Stack/Transaction/Push/Outcome.antt =====
-- How `push_patch` of src/stack/transaction/mod.rs ends.
use stgit.Prelude.{
  ◌+◌, Bool, true, false, ◌||◌, ◌≡◌, ◌≢◌, get_last?, get_last?-count, refl, ap, ◌∙◌, arith, List,
  [], ◌∷◌, ◌++◌, Option, none, some, ◌==◌, if◌then◌else◌, is_some, Bool-cases, Option-cases, inl,
  inr, text_Eq, position, erase_idx, count, count-erase_idx-position, contains, contains-count,
  contains-position, count-append, count-cons, count-nil, one_if,
}
use stgit.Exec.{Error, failed, bail, checkout_conflicts, halt, panic, ok, err, pure, ◌>>=◌, ◌>>◌}
use stgit.Host.{ObjectId, PushStatus, Host}
use stgit.Patch.Name.{PatchName}
use stgit.Stack.Transaction.Defs.{
  StackTransaction, TransactionOptions, has_patch, get_patch, top, M,
}
use stgit.Stack.Transaction.Ends.{
  Post, Ends, Ends-get, Ends-put, Ends-call, Ends-pure, Ends-raise, Ends-bind, Holds, Ends-unwrap,
}
use stgit.Stack.Transaction.Consistent.{IsConsistent, count_all}
use stgit.Stack.Transaction.Merge.{is_conflict}
use stgit.Stack.Transaction.Push.{moved_to_applied, finish_push, push_patch}
use stgit.Stack.Transaction.Push.Merging.{
  Frame, Frame-trans, Framed, Framed-Frame, merge_trees-Ends, update_pushed-Ends,
  get_parent_commit-Ends,
}

-- What is left of the unapplied and of the hidden patches when a name is taken out.
abbrev pub unapplied_without : List PatchName → PatchName → List PatchName
unapplied_without unapplied pn = elim (position (λ x. x == pn) unapplied) [
  | some pos ↦ erase_idx unapplied pos
  | none ↦ unapplied
]

abbrev pub hidden_without : List PatchName → List PatchName → PatchName → List PatchName
hidden_without unapplied hidden pn = elim (position (λ x. x == pn) unapplied) [
  | some pos ↦ hidden
  | none ↦ unapplied_without hidden pn
]

-- The name has moved to the top of the applied patches, and nothing else has changed place.
pub record Moved (pn : PatchName) (t u : StackTransaction) : Type 0 where
  pub stack : u.stack ≡ t.stack
  pub applied : u.applied ≡ t.applied ++ pn ∷ []
  pub unapplied : u.unapplied ≡ unapplied_without t.unapplied pn
  pub hidden : u.hidden ≡ hidden_without t.unapplied t.hidden pn
  pub has : (a : PatchName) → has_patch u a ≡ has_patch t a

moved_to_applied-Moved :
    (t : StackTransaction) (pn : PatchName) → Moved pn t (moved_to_applied t pn)
unfolding moved_to_applied has_patch
moved_to_applied-Moved t pn = record {
  stack = ground arith;
  applied = ground arith;
  unapplied = ground arith;
  hidden = ground arith;
  has = λ a. ground arith;
}

Frame-Moved : {pn : PatchName} {t u v : StackTransaction} → Frame t u → Moved pn u v → Moved pn t v
Frame-Moved f m = record {
  stack = m.stack ∙ f.stack;
  applied = cc (m.applied, f.applied);
  unapplied = cc (m.unapplied, f.unapplied);
  hidden = cc (m.hidden, f.hidden, f.unapplied);
  has = λ a. m.has a ∙ f.has a;
}

count-unapplied_without :
    (a pn : PatchName) (xs : List PatchName)
    → count a (unapplied_without xs pn) + (if contains xs pn then one_if (a == pn) else 0)
      ≡ count a xs
count-unapplied_without a pn xs = elim (Option-cases (position (λ x. x == pn) xs)) [
  | inl e ↦ rw (contains-position pn xs, e, unapplied_without) (omega arith)
  | inr (i, e) ↦
      rw (contains-position pn xs, e, unapplied_without) (count-erase_idx-position a pn xs i e)
]

-- Taking a name out takes one copy of it out of the first of the two lists that has it.
count-without :
    (a pn : PatchName) (unapplied hidden : List PatchName)
    → (count a (unapplied_without unapplied pn) + count a (hidden_without unapplied hidden pn))
        + (if contains unapplied pn || contains hidden pn then one_if (a == pn) else 0)
      ≡ count a unapplied + count a hidden
count-without a pn unapplied hidden = elim (Option-cases (position (λ x. x == pn) unapplied)) [
  | inl e ↦
      rw (contains-position pn unapplied, e, unapplied_without, hidden_without)
        (omega (arith, count-unapplied_without a pn hidden))
  | inr (i, e) ↦
      rw (contains-position pn unapplied, e, unapplied_without, hidden_without)
        (omega (arith, count-erase_idx-position a pn unapplied i e))
]

pub Moved-IsConsistent :
    {pn : PatchName} {t u : StackTransaction}
    → has_patch t pn ≡ true
    → contains t.applied pn ≡ false
    → Moved pn t u
    → IsConsistent t
    → IsConsistent u
Moved-IsConsistent {pn} {t} {u} known fresh m c = record {
  counted = λ a. ground (
    arith,
    c.counted a,
    c.counted pn,
    m.has a,
    known,
    fresh,
    count_all a t,
    count_all pn t,
    count_all a u,
    ap (count a) m.applied,
    ap (count a) m.unapplied,
    ap (count a) m.hidden,
    count-append a t.applied (pn ∷ []),
    count-cons a pn [],
    count-nil a,
    count-without a pn t.unapplied t.hidden,
    contains-count t.applied pn,
    contains-count t.unapplied pn,
    contains-count t.hidden pn,
  );
}

-- What holds where `push_patch` ends. A halt that reports conflicts has moved the patch; every
-- other one leaves it where it was.
abbrev pub Pushes : {A : Type 0} → PatchName → StackTransaction → Post A
Pushes pn t (ok a) u = Moved pn t u
Pushes pn t (err (halt message conflicts)) u = if conflicts then Moved pn t u else Frame t u
Pushes pn t (err (bail message)) u = Unit
Pushes pn t (err _) u = ⊥

pub has_patch-get_patch :
    (t : StackTransaction) (pn : PatchName) → has_patch t pn ≡ is_some (get_patch t pn)
unfolding has_patch get_patch
has_patch-get_patch t pn = ground arith

-- In a consistent transaction `top` does not panic.
pub top-ne-none : {t : StackTransaction} → IsConsistent t → top t ≢ none
unfolding top
top-ne-none {t} c = elim (Option-cases (get_last? t.applied)) [
  | inl e ↦ rw (e, top) (λ h. cc)
  | inr (pn, e) ↦
      rw (e, top)
        (ground (
          arith,
          has_patch-get_patch t pn,
          c.counted pn,
          count_all pn t,
          get_last?-count pn t.applied e,
        ))
]

Frame-options :
    (t : StackTransaction) (options : TransactionOptions) → Frame t (record t { options = options })
unfolding has_patch
Frame-options t options = record {
  stack = refl;
  applied = refl;
  unapplied = refl;
  hidden = refl;
  has = λ a. refl;
}

Framed-Pushes :
    (A B : Type 0) (pn : PatchName) (t : StackTransaction) (e : Error) (u : StackTransaction)
    → Framed {A = A} t (err e) u
    → Holds (Pushes {A = B} pn t) (err e) u
Framed-Pushes A B pn t (failed message) u h = tt
Framed-Pushes A B pn t (bail message) u h = tt
Framed-Pushes A B pn t (checkout_conflicts message) u h = h
Framed-Pushes A B pn t (halt message conflicts) u h = rw (h.0) (h.1)
Framed-Pushes A B pn t panic u h = h

Framed-then :
    {W A B : Type 0} {m : M W A} {f : A → M W B} {pn : PatchName} {t u : StackTransaction}
    → Ends m u (Framed t)
    → ((a : A) (v : StackTransaction) → Frame t v → Ends (f a) v (Pushes pn t))
    → Ends (m >>= f) u (Pushes pn t)
Framed-then {A = A} {B} {m = m} {f = f} {pn} {t} h k =
    Ends-bind _ _ f m h k (Framed-Pushes A B pn t)

Pushes-then :
    {W A B : Type 0} {m : M W A} {pn : PatchName} {t u : StackTransaction} (b : B)
    → Ends m u (Pushes pn t)
    → Ends (m >> pure b) u (Pushes pn t)
Pushes-then {A = A} {B} {m = m} {pn} {t} b h =
    Ends-bind _ _ _ m h (λ a v x. Ends-pure _ _ x) (stop A B pn t)
  where
    stop :
        (A B : Type 0) (pn : PatchName) (t : StackTransaction) (e : Error) (u : StackTransaction)
        → Pushes {A = A} pn t (err e) u
        → Holds (Pushes {A = B} pn t) (err e) u
    stop A B pn t (failed message) u h = tt
    stop A B pn t (bail message) u h = tt
    stop A B pn t (checkout_conflicts message) u h = h
    stop A B pn t (halt message conflicts) u h = h
    stop A B pn t panic u h = h

module _ {W : Type 0} (host : Host W) where
  finish_push-Ends :
      (pn : PatchName) (status : PushStatus) (is_last : Bool) (t u : StackTransaction)
      → Frame t u
      → Ends (finish_push host pn status is_last) u (Pushes pn t)
  unfolding finish_push
  finish_push-Ends pn status is_last t u f = elim (Bool-cases (is_conflict status)) [
    | inl h ↦ rw h (
        Ends-get _ _ (
          Ends-put _ _ _ (
            Ends-call _ _ _ (λ _.
              Ends-raise _ _
                (Frame-Moved (Frame-trans f (Frame-options u _)) (moved_to_applied-Moved _ pn))))))
    | inr h ↦ rw h (
        Ends-get _ _ (
          Ends-put _ _ _
            (Ends-call _ _ _ (λ _. Ends-pure _ _ (Frame-Moved f (moved_to_applied-Moved u pn))))))
  ]

  -- From a consistent transaction, for a patch of it, `push_patch` never panics. If it returns, or
  -- halts on a conflicting merge, the name has been taken out of the unapplied patches, or else the
  -- hidden ones, and appended to the applied ones; if it halts in any other way, the lists are as
  -- before. The same names are patches in each case. It says nothing of a run in which an external
  -- call fails or a patch has no parent.
  pub push_patch-Ends :
      (pn : PatchName) (is_merged is_last : Bool) (temp : Option ObjectId) (t : StackTransaction)
      → IsConsistent t
      → has_patch t pn ≡ true
      → Ends (push_patch host pn is_merged is_last temp) t (Pushes pn t)
  unfolding push_patch
  push_patch-Ends pn is_merged is_last temp t c known = Ends-call _ _ _ (λ committer. Ends-get _ _ (
      Ends-unwrap _ _ _
        (λ patch _. Framed-then (get_parent_commit-Ends host patch.commit t) (λ old_parent u f.
          Ends-unwrap _ _ _
            (λ new_parent _.
              Framed-then
                (Framed-Frame f
                  (merge_trees-Ends host pn is_merged patch.commit old_parent new_parent temp u))
                (λ r v g.
                  Framed-then
                    (Framed-Frame g (
                      update_pushed-Ends host committer pn patch.commit old_parent new_parent r.0.0
                        r.0.1 v (g.has pn ∙ known)))
                    (λ status w k. Pushes-then r.1 (finish_push-Ends pn status is_last t w k))))
            (λ e. absurd (top-ne-none c e))))
        (λ e. cc (e, known, has_patch-get_patch t pn))))
