-- ===== src/Stack/Transaction/Session.antt =====
-- A command's use of a transaction: `transact` of src/stack/transaction/builder.rs and then `execute`
-- of src/stack/transaction/mod.rs.
use stgit.Prelude.{
  Text, Bool, true, false, not, ◌≡◌, refl, sym, subst, ◌∙◌, List, ◌++◌, none, lookup, text_Eq,
  filter, contains, if◌then◌else◌,
}
use stgit.Exec.{failed, bail, checkout_conflicts, halt, panic, Result, ok, err, Exec, ◌>>=◌}
use stgit.Patch.Name.{PatchName}
use stgit.Stack.State.{Stack, StackState, state_access, stack_access}
use stgit.Stack.Repository.{Repository}
use stgit.Stack.Transaction.Defs.{
  StackTransaction, TransactionOptions, transaction_access, has_patch, M,
}
use stgit.Stack.Transaction.Ends.{Post, Ends, Holds}
use stgit.Stack.Transaction.Consistent.{IsWellFormed, IsConsistent}
use stgit.Stack.Transaction.Push.{push_patches}
use stgit.Stack.Transaction.Push.Loop.{Pushable, PushesAll}
use stgit.Stack.Transaction.Push.Merged.{push_patches-Ends}
use stgit.Stack.Transaction.Builder.{TransactionBuilder, begin, transact, keep_error}
use stgit.Stack.Transaction.Execute.{execute}
use stgit.Stack.Transaction.Execute.Yields.{Yields, Yields-mono, Yields-bind, OnOk}
use stgit.Stack.Transaction.Execute.Commits.{Committed, execute-Commits}

pub begin-IsConsistent :
    (stack : Stack) (options : TransactionOptions)
    → IsWellFormed stack.state
    → IsConsistent (begin stack options)
unfolding has_patch lookup
begin-IsConsistent stack options v = record { counted = v.counted }

-- `transact(f).execute(reflog_msg)`
unfoldable pub session :
    {W : Type 0} → Repository W → TransactionBuilder → M W (Unit {0}) → Text → Exec W Stack
session repo builder f reflog_msg = transact builder f >>= λ t. execute repo t reflog_msg

abbrev pub without_error : StackTransaction → StackTransaction
without_error t = record t { error = none }

-- A transaction without an error is one that the method has returned from.
abbrev Transacted : Post (Unit {0}) → StackTransaction → Type 0
Transacted Q t = t.error ≡ none → (u : StackTransaction) × Q (ok tt) u × (t ≡ without_error u)

keep_error-Transacted :
    {W : Type 0} (Q : Post (Unit {0})) (r : Result (Unit {0})) (u : StackTransaction) (w : W)
    → Holds Q r u
    → OnOk (Transacted Q) (keep_error r u w).0
keep_error-Transacted Q (ok done) u w q = λ _. (u, q, refl)
keep_error-Transacted Q (err panic) u w q = tt
keep_error-Transacted Q (err (failed message)) u w q = λ e. cc
keep_error-Transacted Q (err (bail message)) u w q = λ e. cc
keep_error-Transacted Q (err (checkout_conflicts message)) u w q = λ e. cc
keep_error-Transacted Q (err (halt message conflicts)) u w q = λ e. cc

transact-Transacted :
    {W : Type 0} (builder : TransactionBuilder) (f : M W (Unit {0})) (Q : Post (Unit {0}))
    → Ends f (begin builder.stack builder.options) Q
    → Yields (transact builder f) (Transacted Q)
unfolding transact
transact-Transacted {W} builder f Q h = record {
  at = λ w.
      on builder.output (f (record { trans = begin builder.stack builder.options; world = w })).0 _
        _ w (h.at w);
}
  where
    on :
        (output : Bool) (r : Result (Unit {0})) (u : StackTransaction) (w' w : W)
        → Holds Q r u
        → OnOk (Transacted Q) (if output then keep_error r u w' else (err panic, w)).0
    on true r u w' w q = keep_error-Transacted Q r u w' q
    on false r u w' w q = tt

without_error-IsConsistent :
    {t : StackTransaction} → IsConsistent t → IsConsistent (without_error t)
unfolding has_patch
without_error-IsConsistent c = record { counted = c.counted }

-- The stack is the one that some successful end of the method leaves.
abbrev pub Commits : Post (Unit {0}) → Stack → Type 0
Commits Q stack = (t : StackTransaction) × Q (ok tt) t × Committed (without_error t) stack

pub session-Commits :
    {W : Type 0} (repo : Repository W) (builder : TransactionBuilder) (f : M W (Unit {0}))
    (reflog_msg : Text) (Q : Post (Unit {0}))
    → Ends f (begin builder.stack builder.options) Q
    → ((t : StackTransaction) → Q (ok tt) t → IsConsistent t)
    → Yields (session repo builder f reflog_msg) (Commits Q)
unfolding session
session-Commits repo builder f reflog_msg Q h consistent =
    Yields-bind (Transacted Q) _ (transact-Transacted builder f Q h) (λ t k.
      Yields-mono (Committed t) _
        (λ stack v. let (u, q, e) = k v.no_error in (u, q, subst (λ x. Committed x stack) e v))
        (execute-Commits repo t reflog_msg (λ ne.
          let (u, q, e) = k ne in
          subst IsConsistent (sym e) (without_error-IsConsistent (consistent u q)))))

-- The stack behind a successful command that pushes patches.
pub record PushedStack (before : StackState) (pns : List PatchName) (after : StackState)
    : Type 0 where
  pub applied_eq : after.applied ≡ before.applied ++ pns
  pub unapplied_eq : after.unapplied ≡ filter (λ x. not (contains pns x)) before.unapplied
  pub hidden_eq : after.hidden ≡ filter (λ x. not (contains pns x)) before.hidden
  pub well_formed : IsWellFormed after

abbrev pub LeavesPushed : List PatchName → Stack → Stack → Type 0
LeavesPushed pns before after = PushedStack before.state pns after.state

pub PushesAll-PushedStack :
    (pns : List PatchName) (before : Stack) (options : TransactionOptions) (after : Stack)
    → Commits (PushesAll pns (begin before options)) after
    → LeavesPushed pns before after
PushesAll-PushedStack pns before options after (t, p, c) = record {
  applied_eq = c.applied_eq ∙ p.applied;
  unapplied_eq = c.unapplied_eq ∙ p.unapplied;
  hidden_eq = c.hidden_eq ∙ p.hidden;
  well_formed = c.well_formed;
}

-- Where a stack's state is well formed (its three lists name every patch of its map once, and
-- nothing else) and the given names are patches of it, each named once and none applied, a
-- transaction that pushes them and is then executed leaves, in every world where it returns a
-- stack, a state whose applied patches are the old ones followed by the given names, whose
-- unapplied and hidden patches are the old ones without them, and which is well formed.
pub push_session-PushedStack :
    {W : Type 0} (repo : Repository W) (builder : TransactionBuilder) (pns : List PatchName)
    (checks_merged : Bool) (reflog_msg : Text)
    → IsWellFormed builder.stack.state
    → Pushable (begin builder.stack builder.options) pns
    → Yields
        (session repo builder (push_patches repo.host pns checks_merged) reflog_msg)
        (LeavesPushed pns builder.stack)
push_session-PushedStack repo builder pns checks_merged reflog_msg v p =
    Yields-mono _ _ (PushesAll-PushedStack pns builder.stack builder.options) (
      session-Commits repo builder (push_patches repo.host pns checks_merged) reflog_msg
        (PushesAll pns (begin builder.stack builder.options))
        (push_patches-Ends repo.host pns checks_merged (begin builder.stack builder.options)
          (begin-IsConsistent builder.stack builder.options v) p)
        (λ t q. q.consistent))
