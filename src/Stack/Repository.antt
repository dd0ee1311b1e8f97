-- ===== src/Stack/Repository.antt =====
-- What the stack's state and the execution of a transaction use of the git repository: references,
-- the commits of the stack's state, and the trees that hold a state.
use stgit.Prelude.{Text, Bool, List, Option, none, some}
use stgit.Exec.{Error, failed, panic, Result, ok, err, Exec}
use stgit.Host.{ObjectId, Signature, Commit, Reply, done, fault, Call, Host}
use stgit.Patch.Name.{PatchName}
use stgit.Stack.State.{StackState}

-- The references of a branch: its own, the one of its stack's state, and one for each patch.
pub data RefName : Type 0 where
  branch_ref stack_ref : RefName
  patch_ref : PatchName → RefName

pub data PreviousValue : Type 0 where
  any must_not_exist : PreviousValue
  existing_must_match : ObjectId → PreviousValue

pub data RefChange : Type 0 where
  update : PreviousValue → ObjectId → RefChange
  delete : PreviousValue → RefChange

pub record RefEdit : Type 0 where
  pub name : RefName
  pub change : RefChange

pub record Repository (W : Type 0) : Type 0 where
  pub host : Host W
  pub get_author : Call W Signature
  -- Author, committer, message, tree, parents and `gpgsign`.
  pub commit_with_options :
      Signature → Signature → Text → ObjectId → List ObjectId → Bool → Call W ObjectId
  -- `find_reference(stack_refname)?.peel_to_commit()`
  pub find_stack_commit : Call W Commit
  -- `find_reference(branch_ref_name)`
  pub find_branch : Call W (Unit {0})
  pub edit_references : List RefEdit → Call W (Unit {0})
  -- `repo.reference(stack_refname, id, Any, message)`
  pub set_stack_reference : ObjectId → Text → Call W (Unit {0})
  -- The state that the tree of a state commit holds, and the tree of a state, written with the
  -- previous state and its commit at hand: both through JSON and git's objects.
  pub read_state_tree : Commit → Call W StackState
  pub write_state_tree : StackState → Option (StackState × Commit) → Call W ObjectId

abbrev pub as_result : {A : Type 0} → Reply A → Result A
as_result (done a) = ok a
as_result (fault message) = err (failed message)

module _ {W A : Type 0} where
  -- An external call with `?`.
  unfoldable pub ask : Call W A → Exec W A
  ask c w = (as_result (c w).0, (c w).1)

  -- An external call whose error is handled.
  unfoldable pub try_ask : Call W A → Exec W (Reply A)
  try_ask c w = (ok (c w).0, (c w).1)

  -- `expect`, and an index that may be out of range.
  unfoldable pub expect : Option A → Exec W A
  expect none w = (err panic, w)
  expect (some a) w = (ok a, w)

  -- What `map_err` makes of a result. A panic is no error value.
  abbrev pub recover : (Error → Exec W A) → Result A → Exec W A
  recover handler (ok a) w = (ok a, w)
  recover handler (err panic) w = (err panic, w)
  recover handler (err e) w = handler e w

  unfoldable pub map_err : Exec W A → (Error → Exec W A) → Exec W A
  map_err m handler w = recover handler (m w).0 (m w).1
