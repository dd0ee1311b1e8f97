-- ===== src/Stack/Transaction/Builder.antt =====
-- src/stack/transaction/builder.rs: the options of a transaction and its start. Each method of the
-- builder returns the builder with one field set.
use stgit.Prelude.{Bool, true, false, [], Option, none, some, if◌then◌else◌}
use stgit.Exec.{panic, Result, ok, err, Exec}
use stgit.Stack.State.{Stack, state_access, stack_access}
use stgit.Stack.Transaction.Defs.{
  disallow, allow, allow_if_same_top, TransactionOptions, default_options, StackTransaction, M,
  transaction_access,
}

-- The output stream is only known to be set or not.
pub record TransactionBuilder : Type 0 where
  pub stack : Stack
  pub output : Bool
  pub options : TransactionOptions

-- `TransactionBuilder::new`
abbrev pub new_builder : Stack → TransactionBuilder
new_builder stack = record { stack = stack; output = false; options = default_options }

-- `Stack::setup_transaction`; `none` is a panic.
unfoldable pub setup_transaction : Stack → Option TransactionBuilder
setup_transaction self = if self.is_initialized then some (new_builder self) else none

abbrev pub with_options : TransactionBuilder → TransactionOptions → TransactionBuilder
with_options self options = record self { options = options }

abbrev pub allow_bad_head : TransactionBuilder → Bool → TransactionBuilder
allow_bad_head self allowed = with_options self (record self.options { allow_bad_head = allowed })

unfoldable pub allow_conflicts : TransactionBuilder → Bool → TransactionBuilder
allow_conflicts self allowed =
    with_options self (record self.options { conflict_mode = if allowed then allow else disallow })

unfoldable pub allow_conflicts_if_same_top : TransactionBuilder → Bool → TransactionBuilder
allow_conflicts_if_same_top self allowed =
    with_options self
      (record self.options { conflict_mode = if allowed then allow_if_same_top else disallow })

abbrev pub allow_push_conflicts : TransactionBuilder → Bool → TransactionBuilder
allow_push_conflicts self allowed =
    with_options self (record self.options { allow_push_conflicts = some allowed })

abbrev pub discard_changes : TransactionBuilder → Bool → TransactionBuilder
discard_changes self discard = with_options self (record self.options { discard_changes = discard })

abbrev pub use_index_and_worktree : TransactionBuilder → Bool → TransactionBuilder
use_index_and_worktree self allowed =
    with_options self (record self.options { use_index_and_worktree = allowed })

abbrev pub with_output_stream : TransactionBuilder → TransactionBuilder
with_output_stream self = record self { output = true }

abbrev pub set_head : TransactionBuilder → Bool → TransactionBuilder
set_head self on = with_options self (record self.options { set_head = on })

abbrev pub committer_date_is_author_date : TransactionBuilder → Bool → TransactionBuilder
committer_date_is_author_date self on =
    with_options self (record self.options { committer_date_is_author_date = on })

-- The transaction that `transact` starts from.
abbrev pub begin : Stack → TransactionOptions → StackTransaction
begin stack options = record {
  stack = stack;
  options = options;
  applied = stack.state.applied;
  unapplied = stack.state.unapplied;
  hidden = stack.state.hidden;
  updated_patches = [];
  updated_head = none;
  updated_base = none;
  current_tree_id = stack.branch_head.tree_id;
  error = none;
}

module _ {W : Type 0} where
  -- The error that the closure returned is kept for `execute`.
  abbrev pub keep_error : Result (Unit {0}) → StackTransaction → Exec W StackTransaction
  keep_error (ok done) transaction w = (ok (record transaction { error = none }), w)
  keep_error (err panic) transaction w = (err panic, w)
  keep_error (err e) transaction w = (ok (record transaction { error = some e }), w)

  unfoldable pub transact : TransactionBuilder → M W (Unit {0}) → Exec W StackTransaction
  transact self f w =
      if self.output
      then (let (r, s) = f (record { trans = begin self.stack self.options; world = w }) in
          keep_error r s.trans s.world)
      else (err panic, w)
