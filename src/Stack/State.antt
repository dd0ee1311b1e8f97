-- ===== src/Stack/State.antt =====
-- src/stack/state.rs and the struct `Stack` of src/stack/stack.rs.
use stgit.Prelude.{
  Bool, List, [], Option, none, some, Map, lookup, contains_key, get_last?, nat_eq, text_Eq, ◌||◌,
  is_empty,
}
use stgit.Host.{Commit}
use stgit.Patch.Name.{PatchName}
use stgit.Stack.Access.{PatchState, StackStateAccess}

pub record StackState : Type 0 where
  pub prev : Option Commit
  pub head : Commit
  pub applied : List PatchName
  pub unapplied : List PatchName
  pub hidden : List PatchName
  pub patches : Map PatchName PatchState

-- `StackState::new`
abbrev pub new : Commit → StackState
new head = record {
  prev = none;
  head = head;
  applied = [];
  unapplied = [];
  hidden = [];
  patches = [];
}

-- `StackState::advance_head`
abbrev pub advance_head : StackState → Commit → Commit → StackState
advance_head self new_head prev_state = record self { prev = some prev_state; head = new_head }

-- `none` is a panic of the indexing by a name that is not a key.
unfoldable pub top : StackState → Option Commit
top self = elim (get_last? self.applied) [
  | some patchname ↦ elim (lookup patchname self.patches) [
    | none ↦ none
    | some patch ↦ some patch.commit
  ]
  | none ↦ some self.head
]

instance abbrev pub state_access : StackStateAccess StackState
state_access = record {
  applied = λ s. s.applied;
  unapplied = λ s. s.unapplied;
  hidden = λ s. s.hidden;
  get_patch = λ s patchname. lookup patchname s.patches;
  has_patch = λ s patchname. contains_key s.patches patchname;
  top = top;
  head = λ s. some s.head;
}

-- The stack of a branch. The repository is the world of `Host`; the names of the branch and of its
-- references only select where the state is read and written.
pub record Stack : Type 0 where
  pub branch_head : Commit
  pub base : Commit
  pub state : StackState
  pub is_initialized : Bool

unfoldable pub is_head_top : Stack → Bool
is_head_top self = nat_eq self.state.head.id self.branch_head.id

-- `check_head_top_mismatch`: the test that it passes.
unfoldable pub head_top_match : Stack → Bool
unfolding is_head_top
head_top_match self = is_empty self.state.applied || is_head_top self

instance abbrev pub stack_access : StackStateAccess Stack
stack_access = record {
  applied = λ s. s.state.applied;
  unapplied = λ s. s.state.unapplied;
  hidden = λ s. s.state.hidden;
  get_patch = λ s patchname. lookup patchname s.state.patches;
  has_patch = λ s patchname. contains_key s.state.patches patchname;
  top = λ s. top s.state;
  head = λ s. some s.state.head;
}
