-- ===== src/Host.antt =====
-- What the host gives to the stack: the git repository and the terminal. What the gix library and
-- the git processes of src/stupid do is a parameter, a record of operations over an abstract world.
use stgit.Prelude.{Text, ℕ, Bool, List, Option}
use stgit.Patch.Name.{PatchName}

-- The bits of an object id, read as a number.
abbrev pub ObjectId : Type 0
ObjectId = ℕ

pub record Signature : Type 0 where
  pub name : Text
  pub email : Text
  pub time : ℕ

-- A decoded commit object.
pub record Commit : Type 0 where
  pub id : ObjectId
  pub tree_id : ObjectId
  pub parent_ids : List ObjectId
  pub author : Signature
  pub message : Text

pub data PushStatus : Type 0 where
  added already_merged conflict empty modified unmodified : PushStatus

-- The calls of src/stack/transaction/ui.rs, `print_popped` and so on.
pub data Event : Type 0 where
  popped deleted hid unhid committed uncommitted merged : List PatchName → Event
  renamed : PatchName → PatchName → Event
  pushed : PatchName → PushStatus → Bool → Event
  updated : PatchName → Event
  rolled_back : Option PatchName → Event
  top_is : PatchName → Event

-- An external call ends with a value or with an error message.
pub data Reply (A : Type 0) : Type 0 where
  done : A → Reply A
  fault : Text → Reply A

abbrev pub Call : Type 0 → Type 0 → Type 0
Call W A = W → Reply A × W

pub record Host (W : Type 0) : Type 0 where
  -- The terminal.
  pub print : Event → Call W (Unit {0})
  -- `ui.printed_top()`
  pub printed_top : W → Bool
  -- The object database.
  pub find_commit : ObjectId → Call W Commit
  pub author_strict : Commit → Call W Signature
  pub get_committer : Call W Signature
  pub commit_ex : Signature → Signature → Text → ObjectId → List ObjectId → Call W ObjectId
  pub notes_copy : ObjectId → ObjectId → Call W (Unit {0})
  -- The configuration.
  pub config_boolean : Text → W → Option Bool
  -- The temporary index of `with_temp_index`.
  pub temp_read_tree : ObjectId → Call W (Unit {0})
  pub temp_apply_treediff_to_index : ObjectId → ObjectId → Bool → Call W Bool
  pub temp_write_tree : Call W ObjectId
  -- The index and the working tree.
  pub check_conflicts : Call W (Unit {0})
  pub update_index_refresh : Call W (Unit {0})
  pub read_tree_checkout : ObjectId → ObjectId → Call W (Unit {0})
  pub read_tree_checkout_hard : ObjectId → Call W (Unit {0})
  pub merge_recursive_or_mergetool : ObjectId → ObjectId → ObjectId → Bool → Call W Bool
  pub write_tree : Call W ObjectId
