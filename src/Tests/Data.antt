-- ===== src/Tests/Data.antt =====
-- A stack with two applied patches, two unapplied ones and a hidden one, and a host where every
-- call succeeds.
use stgit.Prelude.{true, arith, [], ◌∷◌, none, codes, text_Eq, text_eq_iff, count, lookup}
use stgit.Host.{ObjectId, Commit, Signature, done, Host}
use stgit.Patch.Name.{PatchName}
use stgit.Stack.Access.{PatchState}
use stgit.Stack.State.{Stack, StackState, stack_access, state_access}
use stgit.Stack.Transaction.Defs.{StackTransaction, default_options, has_patch, transaction_access}
use stgit.Stack.Transaction.Consistent.{IsConsistent}

abbrev pub sig : Signature
sig = record { name = codes "A"; email = codes "a@example.org"; time = 0 }

abbrev pub commit_at : ObjectId → ObjectId → Commit
commit_at id parent = record {
  id = id;
  tree_id = id;
  parent_ids = parent ∷ [];
  author = sig;
  message = codes "m";
}

abbrev pub quiet : Host (Unit {0})
quiet = record {
  print = λ event w. (done tt, w);
  printed_top = λ w. true;
  find_commit = λ id w. (done (commit_at id 1), w);
  author_strict = λ c w. (done c.author, w);
  get_committer = λ w. (done sig, w);
  commit_ex = λ author committer message tree parents w. (done 99, w);
  notes_copy = λ old new w. (done tt, w);
  config_boolean = λ key w. none;
  temp_read_tree = λ tree w. (done tt, w);
  temp_apply_treediff_to_index = λ old new flag w. (done true, w);
  temp_write_tree = λ w. (done 50, w);
  check_conflicts = λ w. (done tt, w);
  update_index_refresh = λ w. (done tt, w);
  read_tree_checkout = λ old new w. (done tt, w);
  read_tree_checkout_hard = λ tree w. (done tt, w);
  merge_recursive_or_mergetool = λ base ours theirs flag w. (done true, w);
  write_tree = λ w. (done 60, w);
}

abbrev pub a : PatchName
a = codes "a"

abbrev pub b : PatchName
b = codes "b"

abbrev pub c : PatchName
c = codes "c"

abbrev pub d : PatchName
d = codes "d"

abbrev pub e : PatchName
e = codes "e"

abbrev pub new_name : PatchName
new_name = codes "new"

abbrev pub patch : ObjectId → ObjectId → PatchState
patch id parent = record { commit = commit_at id parent }

abbrev pub state : StackState
state = record {
  prev = none;
  head = commit_at 12 11;
  applied = a ∷ b ∷ [];
  unapplied = c ∷ d ∷ [];
  hidden = e ∷ [];
  patches =
      (a, patch 11 10)
      ∷ (b, patch 12 11)
      ∷ (c, patch 13 10)
      ∷ (d, patch 14 10)
      ∷ (e, patch 15 10)
      ∷ [];
}

abbrev pub stack : Stack
stack = record {
  branch_head = commit_at 12 11;
  base = commit_at 10 9;
  state = state;
  is_initialized = true;
}

abbrev pub trans : StackTransaction
trans = record {
  stack = stack;
  options = default_options;
  applied = state.applied;
  unapplied = state.unapplied;
  hidden = state.hidden;
  updated_patches = [];
  updated_head = none;
  updated_base = none;
  current_tree_id = 12;
  error = none;
}

pub trans-IsConsistent : IsConsistent trans
unfolding has_patch lookup count
trans-IsConsistent = record {
  counted = λ x. ground (
    arith,
    text_eq_iff x a,
    text_eq_iff a x,
    text_eq_iff x b,
    text_eq_iff b x,
    text_eq_iff x c,
    text_eq_iff c x,
    text_eq_iff x d,
    text_eq_iff d x,
    text_eq_iff x e,
    text_eq_iff e x,
  );
}
