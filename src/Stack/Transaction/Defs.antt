-- ===== src/Stack/Transaction/Defs.antt =====
-- The state of a transaction, src/stack/transaction/mod.rs and src/stack/transaction/options.rs,
-- and the actions that its methods are made of.
use stgit.Prelude.{
  Text, Bool, true, false, List, Option, none, some, Map, lookup, is_some, get_last?, text_Eq,
  if◌then◌else◌,
}
use stgit.Exec.{Error, failed, panic, Result, ok, err, Exec}
use stgit.Host.{ObjectId, Commit, Event, Reply, done, fault, Call, Host}
use stgit.Patch.Name.{PatchName}
use stgit.Stack.Access.{PatchState, StackStateAccess}
use stgit.Stack.State.{Stack, stack_access}

pub data ConflictMode : Type 0 where
  disallow allow allow_if_same_top : ConflictMode

pub record TransactionOptions : Type 0 where
  pub conflict_mode : ConflictMode
  pub allow_push_conflicts : Option Bool
  pub discard_changes : Bool
  pub use_index_and_worktree : Bool
  pub set_head : Bool
  pub allow_bad_head : Bool
  pub committer_date_is_author_date : Bool

-- `TransactionOptions::default`
abbrev pub default_options : TransactionOptions
default_options = record {
  conflict_mode = disallow;
  allow_push_conflicts = none;
  discard_changes = false;
  use_index_and_worktree = false;
  set_head = true;
  allow_bad_head = false;
  committer_date_is_author_date = false;
}

pub record StackTransaction : Type 0 where
  pub stack : Stack
  pub options : TransactionOptions
  pub applied : List PatchName
  pub unapplied : List PatchName
  pub hidden : List PatchName
  pub updated_patches : Map PatchName (Option PatchState)
  pub updated_head : Option Commit
  pub updated_base : Option Commit
  pub current_tree_id : ObjectId
  pub error : Option Error

-- `none` is a panic: the patch is deleted in the transaction, or not in the stack.
unfoldable pub get_patch : StackTransaction → PatchName → Option PatchState
get_patch self patchname = elim (lookup patchname self.updated_patches) [
  | some maybe_patch ↦ maybe_patch
  | none ↦ lookup patchname self.stack.state.patches
]

unfoldable pub has_patch : StackTransaction → PatchName → Bool
has_patch self patchname = elim (lookup patchname self.updated_patches) [
  | some maybe_patch ↦ is_some maybe_patch
  | none ↦ stack_access.has_patch self.stack patchname
]

unfoldable pub base : StackTransaction → Commit
base self = elim self.updated_base [ some commit ↦ commit | none ↦ self.stack.base ]

unfoldable pub top : StackTransaction → Option Commit
unfolding get_patch base
top self = elim (get_last? self.applied) [
  | some patchname ↦ elim (get_patch self patchname) [
    | none ↦ none
    | some patch ↦ some patch.commit
  ]
  | none ↦ some (base self)
]

unfoldable pub head : StackTransaction → Option Commit
unfolding top
head self = elim self.updated_head [ some commit ↦ some commit | none ↦ top self ]

instance abbrev pub transaction_access : StackStateAccess StackTransaction
transaction_access = record {
  applied = λ s. s.applied;
  unapplied = λ s. s.unapplied;
  hidden = λ s. s.hidden;
  get_patch = get_patch;
  has_patch = has_patch;
  top = top;
  head = head;
}

-- A method of the transaction runs over the transaction and the world of the host.
pub record Env (W : Type 0) : Type 0 where
  pub trans : StackTransaction
  pub world : W

abbrev pub M : Type 0 → Type 0 → Type 0
M W A = Exec (Env W) A

abbrev pub reply_result : {A : Type 0} → Reply A → Result A
reply_result (done a) = ok a
reply_result (fault message) = err (failed message)

module _ {W : Type 0} where
  unfoldable pub get : M W StackTransaction
  get s = (ok s.trans, s)

  unfoldable pub put : StackTransaction → M W (Unit {0})
  put t s = (ok tt, record s { trans = t })

  module _ {A : Type 0} where
    -- An external call leaves the transaction as it is.
    unfoldable pub call : Call W A → M W A
    call f s = let (reply, world') = f s.world in (reply_result reply, record s { world = world' })

    -- `.ok()` behind a call: its result is dropped.
    unfoldable pub attempt : Call W A → M W (Unit {0})
    attempt f s = (ok tt, record s { world = (f s.world).1 })

    -- A call whose error the caller handles.
    unfoldable pub try_call : Call W A → M W (Reply A)
    try_call f s = let (reply, world') = f s.world in (ok reply, record s { world = world' })

    -- `unwrap` and `expect`.
    unfoldable pub unwrap : Option A → M W A
    unwrap (some a) s = (ok a, s)
    unwrap none s = (err panic, s)

  -- `config.boolean(key)`
  unfoldable pub config : Host W → Text → M W (Option Bool)
  config host key s = (ok (host.config_boolean key s.world), s)

  -- `assert!`
  abbrev pub assert : Bool → M W (Unit {0})
  assert b = unwrap (if b then some tt else none)

  abbrev pub print : Host W → Event → M W (Unit {0})
  print host event = call (host.print event)
