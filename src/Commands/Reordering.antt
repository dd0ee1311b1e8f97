-- ===== src/Commands/Reordering.antt =====
-- A transaction that reorders the patches, executed: what the commands that only move patches do.
use stgit.Prelude.{
  Text, subst, count-append, ◌+◌, ◌<◌, ◌≤◌, Bool, true, false, not, ◌≡◌, refl, sym, ap, ◌∙◌, arith,
  List, [], ◌∷◌, ◌++◌, none, some, text_Eq, filter, drop, contains, contains-count, count,
  count-take-drop, count-cons, text_eq_iff,
}
use stgit.Exec.{panic}
use stgit.Patch.Outcome.{Outcome}
use stgit.Commands.{chosen}
use stgit.Patch.Name.{PatchName}
use stgit.Stack.State.{Stack, StackState, state_access}
use stgit.Stack.Repository.{Repository}
use stgit.Stack.Transaction.Defs.{StackTransaction, TransactionOptions, transaction_access}
use stgit.Stack.Transaction.Consistent.{IsWellFormed, IsConsistent, count_all}
use stgit.Stack.Transaction.Reorder.{reorder_patches, common_prefix}
use stgit.Stack.Transaction.Reorder.Prefix.{take-common_prefix}
use stgit.Stack.Transaction.Reorder.Applied.{reordered_hidden}
use stgit.Stack.Transaction.Reorder.Whole.{Arranges, Covers, reorder_patches-Ends}
use stgit.Stack.Transaction.Builder.{TransactionBuilder, begin, setup_transaction}
use stgit.Stack.Transaction.Execute.Yields.{Yields, Yields-mono, Yields-pure, Yields-raise}
use stgit.Stack.Transaction.Session.{session, session-Commits, Commits, begin-IsConsistent}

-- The names of a list that are not among the given ones.
abbrev pub kept : List PatchName → List PatchName → List PatchName
kept taken pns = filter (λ pn. not (contains taken pn)) pns

pub filter-same :
    (p q : PatchName → Bool) (xs : List PatchName)
    → ((x : PatchName) → 0 < count x xs → p x ≡ q x)
    → filter p xs ≡ filter q xs
filter-same p q [] h = refl
filter-same p q (x ∷ xs) h =
    let rest = filter-same p q xs (λ y k. h y (omega (arith, k, count-cons y x xs))) in
    let here : p x ≡ q x = h x (ground (arith, count-cons x x xs, text_eq_iff x x)) in
    ground (arith, rest, here)

filter_all : (xs : List PatchName) → filter (λ x. true) xs ≡ xs
filter_all [] = refl
filter_all (x ∷ xs) = ap (◌∷◌ x) (filter_all xs)

-- Where none of the list is taken, all of it is kept.
pub kept_all :
    (taken pns : List PatchName)
    → ((x : PatchName) → 0 < count x pns → count x taken ≡ 0)
    → kept taken pns ≡ pns
kept_all taken pns h =
    filter-same _ (λ x. true) pns (λ x k. ground (arith, h x k, contains-count taken x))
    ∙ filter_all pns

filter_none : (xs : List PatchName) → filter (λ x. false) xs ≡ []
filter_none [] = refl
filter_none (x ∷ xs) = filter_none xs

-- Where all of the list is taken, nothing is kept.
pub kept_none :
    (taken pns : List PatchName)
    → ((x : PatchName) → 0 < count x pns → 0 < count x taken)
    → kept taken pns ≡ []
kept_none taken pns h =
    filter-same _ (λ x. false) pns (λ x k. ground (arith, h x k, contains-count taken x))
    ∙ filter_none pns

-- The stack's three lists are the given ones, and its state is well formed.
pub record Placed (applied unapplied hidden : List PatchName) (after : Stack) : Type 0 where
  pub applied_eq : after.state.applied ≡ applied
  pub unapplied_eq : after.state.unapplied ≡ unapplied
  pub hidden_eq : after.state.hidden ≡ hidden
  pub well_formed : IsWellFormed after.state

-- New lists for the applied and the unapplied patches, where the named patches leave the hidden
-- ones: every visible patch is kept, and a hidden one is applied only if it is named.
pub record IsPlacement (pns applied unapplied : List PatchName) (before : StackState) : Type 0 where
  pub total :
      (x : PatchName)
      → count x applied + count x unapplied + count x (kept pns before.hidden)
        ≡ count x before.applied + count x before.unapplied + count x before.hidden
  pub from_hidden :
      (x : PatchName) → 0 < count x before.hidden → contains applied x ≡ contains pns x

drop-common_prefix :
    (pns applied : List PatchName) (t : StackTransaction)
    → IsConsistent t
    → ((x : PatchName) → 0 < count x t.hidden → contains applied x ≡ contains pns x)
    → (x : PatchName) → 0 < count x t.hidden
    → contains (drop (common_prefix t.applied applied) applied) x ≡ contains pns x
drop-common_prefix pns applied t c h x l =
    let k = common_prefix t.applied applied in
    ground (
      arith,
      ap (count x) (take-common_prefix t.applied applied),
      count-take-drop x k t.applied,
      count-take-drop x k applied,
      c.counted x,
      count_all x t,
      contains-count (drop k applied) x,
      contains-count applied x,
      h x l,
    )

hidden-kept :
    (pns applied : List PatchName) (t : StackTransaction)
    → IsConsistent t
    → ((x : PatchName) → 0 < count x t.hidden → contains applied x ≡ contains pns x)
    → reordered_hidden t applied ≡ kept pns t.hidden
hidden-kept pns applied t c h =
    filter-same _ _ t.hidden (λ x k. ap not (drop-common_prefix pns applied t c h x k))

pub begin-Covers :
    (pns applied unapplied : List PatchName) (stack : Stack) (options : TransactionOptions)
    → IsWellFormed stack.state
    → IsPlacement pns applied unapplied stack.state
    → Covers applied unapplied
        (reordered_hidden (begin stack options) applied)
        (begin stack options)
begin-Covers pns applied unapplied stack options v p = record {
  covered = λ a. ground (
    arith,
    p.total a,
    count_all a (begin stack options),
    (begin-IsConsistent stack options v).counted a,
    ap (count a) (
        hidden-kept pns applied (begin stack options) (begin-IsConsistent stack options v)
          p.from_hidden),
  );
}

pub Commits-Placed :
    (pns applied unapplied : List PatchName) (stack : Stack) (options : TransactionOptions)
    (after : Stack)
    → IsWellFormed stack.state
    → IsPlacement pns applied unapplied stack.state
    → Commits
        (Arranges applied unapplied
          (reordered_hidden (begin stack options) applied)
          (begin stack options))
        after
    → Placed applied unapplied (kept pns stack.state.hidden) after
Commits-Placed pns applied unapplied stack options after v p (t, q, c) = record {
  applied_eq = c.applied_eq ∙ q.applied_eq;
  unapplied_eq = c.unapplied_eq ∙ q.unapplied_eq;
  hidden_eq =
      c.hidden_eq
      ∙ q.hidden_eq
      ∙ hidden-kept pns applied (begin stack options) (begin-IsConsistent stack options v)
          p.from_hidden;
  well_formed = c.well_formed;
}

pub reorder_session-Placed :
    {W : Type 0} (repo : Repository W) (builder : TransactionBuilder)
    (pns applied unapplied : List PatchName) (reflog_msg : Text)
    → IsWellFormed builder.stack.state
    → IsPlacement pns applied unapplied builder.stack.state
    → Yields
        (session repo builder
          (reorder_patches repo.host (some applied) (some unapplied) none)
          reflog_msg)
        (Placed applied unapplied (kept pns builder.stack.state.hidden))
reorder_session-Placed repo builder pns applied unapplied reflog_msg v p =
    let t = begin builder.stack builder.options in
    Yields-mono _ _
      (λ after c. Commits-Placed pns applied unapplied builder.stack builder.options after v p c)
      (session-Commits repo builder _ reflog_msg
        (Arranges applied unapplied (reordered_hidden t applied) t)
        (reorder_patches-Ends repo.host (some applied) (some unapplied) none t
          (begin-IsConsistent builder.stack builder.options v)
          (begin-Covers pns applied unapplied builder.stack builder.options v p))
        (λ u q. q.consistent))

-- The builder of a stack's transaction keeps the stack.
pub setup_transaction-stack :
    (stack : Stack) (builder : TransactionBuilder)
    → setup_transaction stack ≡ some builder
    → builder.stack ≡ stack
unfolding setup_transaction
setup_transaction-stack stack builder h = ground arith

pub builder_session-Placed :
    {W : Type 0} (repo : Repository W) (builder : TransactionBuilder) (stack : Stack)
    (pns applied unapplied : List PatchName) (reflog_msg : Text)
    → builder.stack ≡ stack
    → IsWellFormed stack.state
    → IsPlacement pns applied unapplied stack.state
    → Yields
        (session repo builder
          (reorder_patches repo.host (some applied) (some unapplied) none)
          reflog_msg)
        (Placed applied unapplied (kept pns stack.state.hidden))
builder_session-Placed repo builder stack pns applied unapplied reflog_msg e v p =
    subst
      (λ k.
        Yields
          (session repo builder (reorder_patches repo.host (some applied) (some unapplied) none)
            reflog_msg)
          (Placed applied unapplied (kept pns k.state.hidden)))
      e
      (reorder_session-Placed repo builder pns applied unapplied reflog_msg
        (subst (λ k. IsWellFormed k.state) (sym e) v)
        (subst (λ k. IsPlacement pns applied unapplied k.state) (sym e) p))

-- No patch stands twice in the lists of a well-formed state.
pub count_parts :
    (stack : Stack)
    → IsWellFormed stack.state
    → (x : PatchName)
    → count x stack.state.applied + count x stack.state.unapplied + count x stack.state.hidden ≤ 1
count_parts stack v x = ground (
  arith,
  v.counted x,
  count-append x stack.state.applied (stack.state.unapplied ++ stack.state.hidden),
  count-append x stack.state.unapplied stack.state.hidden,
)

-- The choice of patches that an outcome makes.
pub chosen-Yields :
    {W A E : Type 0} (message : E → Text) (o : Outcome E A)
    → Yields {W = W} (chosen message o) (λ a. o ≡ Outcome.ok a)
chosen-Yields message (Outcome.ok a) = Yields-pure _ a refl
chosen-Yields message (Outcome.err e) = Yields-raise _ _
chosen-Yields message Outcome.panic = Yields-raise _ panic
