-- ===== src/Tests/Sessions.antt =====
-- Whole commands on the small stack.
use stgit.Prelude.{
  ◌<◌, nat_eq, ℕ_eq, Bool-cases, inl, inr, Text, ℕ, zero, suc, ◌+◌, ◌≤◌, Bool, true, false, not,
  ◌≡◌, refl, arith, List, [], ◌∷◌, ◌++◌, Option, none, some, codes, text_Eq, text_eq, text_eq_iff,
  count, contains, one_if, ◌==◌, lookup, is_some, position, filter, length,
}
use stgit.Exec.{Exec, Result, ok, err, pure}
use stgit.Host.{done, ObjectId}
use stgit.Stack.State.{StackState, state_access, is_head_top}
use stgit.Stack.Repository.{Repository, ask, expect, map_err}
use stgit.Stack.Commit.{group_parents, max_parents, commit}
use stgit.Stack.Commit.Parents.{Reaches, IsReached, group_parents-Reached}
use stgit.Stack.Commit.Alive.{IsNeeded}
use stgit.Stack.Commit.Reached.{IsOfPrev, IsRepository, commit-Reaches}
use stgit.Stack.Transaction.Defs.{StackTransaction, has_patch, default_options, head}
use stgit.Stack.Transaction.Consistent.{IsWellFormed}
use stgit.Stack.Transaction.Push.{push_patches}
use stgit.Stack.Transaction.Push.Loop.{Pushable}
use stgit.Stack.Transaction.Builder.{
  TransactionBuilder, new_builder, with_output_stream, use_index_and_worktree, begin,
}
use stgit.Stack.Transaction.Execute.{execute}
use stgit.Stack.Transaction.Execute.Yields.{Yields, Yields-pure}
use stgit.Stack.Transaction.Execute.Commits.{Committed, execute-Commits}
use stgit.Stack.Transaction.Session.{session, LeavesPushed, push_session-PushedStack}
use stgit.Tests.Data.{quiet, sig, commit_at, state, stack, trans, trans-IsConsistent, a, b, c, d, e}

abbrev pub quiet_repo : Repository (Unit {0})
quiet_repo = record {
  host = quiet;
  get_author = λ w. (done sig, w);
  commit_with_options = λ author committer message tree parents gpgsign w. (done 80, w);
  find_stack_commit = λ w. (done (commit_at 70 69), w);
  find_branch = λ w. (done tt, w);
  edit_references = λ edits w. (done tt, w);
  set_stack_reference = λ id message w. (done tt, w);
  read_state_tree = λ prev w. (done state, w);
  write_state_tree = λ state' prev w. (done 81, w);
}

execute-Commits_example : Yields (execute quiet_repo trans (codes "push")) (Committed trans)
execute-Commits_example = execute-Commits quiet_repo trans (codes "push") (λ ne. trans-IsConsistent)

pub state-IsWellFormed : IsWellFormed state
unfolding lookup count
state-IsWellFormed = record {
  counted = λ x. ground (
    arith,
    text_eq_iff x a,
    text_eq_iff a x,
    text_eq_iff x b,
    text_eq_iff b x,
    text_eq_iff x c,
    text_eq_iff c x,
    text_eq_iff x d,
    text_eq_iff d x,
    text_eq_iff x e,
    text_eq_iff e x,
  );
}

abbrev builder : TransactionBuilder
builder = use_index_and_worktree (with_output_stream (new_builder stack)) true

names_Pushable : Pushable (begin stack builder.options) (c ∷ e ∷ [])
unfolding has_patch lookup count
names_Pushable = record {
  counted = λ x. ground (
    arith,
    text_eq_iff x a,
    text_eq_iff a x,
    text_eq_iff x b,
    text_eq_iff b x,
    text_eq_iff x c,
    text_eq_iff c x,
    text_eq_iff x e,
    text_eq_iff e x,
    text_eq_iff d x,
  );
}

push_session-PushedStack_example :
    Yields
      (session quiet_repo builder (push_patches quiet (c ∷ e ∷ []) true) (codes "push"))
      (LeavesPushed (c ∷ e ∷ []) stack)
push_session-PushedStack_example =
    push_session-PushedStack quiet_repo builder (c ∷ e ∷ []) true (codes "push") state-IsWellFormed
      names_Pushable

abbrev many : List ObjectId
many = 1 ∷ 2 ∷ 3 ∷ 4 ∷ 5 ∷ 6 ∷ 7 ∷ 8 ∷ 9 ∷ 10 ∷ 11 ∷ 12 ∷ 13 ∷ 14 ∷ 15 ∷ 16 ∷ 17 ∷ 18 ∷ []

-- Commits with ids above those of their parents.
abbrev IsAbove : ObjectId → ObjectId → Type 0
IsAbove y x = x < y

abbrev total_of : List ObjectId → ObjectId
total_of [] = 0
total_of (x ∷ xs) = x + total_of xs

total_of-above :
    (oids : List ObjectId) (x : ObjectId) → contains oids x ≡ true → x < suc (total_of oids)
unfolding contains
total_of-above [] x h = cc
total_of-above (y ∷ oids) x h = elim (Bool-cases (nat_eq x y)) [
  | inl e ↦ ground arith
  | inr n ↦ let below = total_of-above oids x (ground (arith, h, n)) in omega (arith, below)
]

abbrev growing_repo : Repository (Unit {0})
growing_repo = record quiet_repo {
  commit_with_options =
      λ author committer message tree parents gpgsign w. (done (suc (total_of parents)), w);
}

growing_repo-IsRepository : IsRepository growing_repo IsAbove (λ c. state)
unfolding ask
growing_repo-IsRepository = record {
  commits = λ author committer message tree parents gpgsign h. record {
    at = λ w. total_of-above parents;
  };
  reads = λ c. record { at = λ w. refl };
}

-- The small stack's state behind an earlier one.
abbrev later_state : StackState
later_state = record state { prev = some (commit_at 70 69) }

group_parents-Reached_example :
    Yields (group_parents growing_repo 18 (λ group. pure (suc (total_of group))) many) (λ oids.
      (length oids ≤ max_parents)
      × ((x : ObjectId) → contains many x ≡ true → IsReached IsAbove oids x))
group_parents-Reached_example =
    group_parents-Reached growing_repo IsAbove 18 (λ group. pure (suc (total_of group))) many
      (λ group h. Yields-pure _ _ (total_of-above group)) (omega arith)

commit-Reaches_example : Yields (commit growing_repo later_state true (codes "push")) (λ oid.
    (x : ObjectId)
    → IsNeeded later_state x
    → (IsOfPrev (λ c. state) later_state x → ⊥)
    → Reaches IsAbove oid x)
commit-Reaches_example =
    commit-Reaches growing_repo IsAbove (λ c. state) growing_repo-IsRepository later_state true
      (codes "push")

-- Of eighteen parents the last sixteen are grouped.
many_grouped : (group_parents quiet_repo 18 (λ parents. pure 80) many tt).0 ≡ ok (1 ∷ 2 ∷ 80 ∷ [])
unfolding group_parents stgit.Exec.◌>>=◌
many_grouped = refl

abbrev is_ok : {A : Type 0} → Result A → Bool
is_ok (ok value) = true
is_ok (err e) = false

-- The push succeeds on the quiet host.
push_succeeds :
    is_ok (session quiet_repo builder (push_patches quiet (c ∷ e ∷ []) true) (codes "push") tt).0
    ≡ true
unfolding session stgit.Exec.◌>>=◌ stgit.Exec.pure stgit.Exec.raise lookup text_eq contains position
    stgit.Prelude.insert stgit.Prelude.remove stgit.Stack.Transaction.Builder.transact
    stgit.Stack.Transaction.Defs.get stgit.Stack.Transaction.Defs.call
    stgit.Stack.Transaction.Defs.unwrap stgit.Stack.Transaction.Defs.get_patch
    stgit.Stack.Transaction.Defs.top stgit.Stack.Transaction.Defs.attempt
    stgit.Stack.Transaction.Defs.put stgit.Stack.Transaction.Defs.base
    stgit.Stack.Transaction.Defs.config stgit.Stack.Transaction.Defs.has_patch
    stgit.Stack.Transaction.Defs.try_call stgit.Stack.Transaction.Defs.head
    stgit.Stack.Transaction.Execute.execute stgit.Stack.Transaction.Execute.apply_updates
    stgit.Stack.Transaction.Execute.check_same_tree stgit.Stack.Transaction.Execute.checked_out
    stgit.Stack.Transaction.Execute.checkout stgit.Stack.Transaction.Execute.checkout_head
    stgit.Stack.Transaction.Execute.conclude stgit.Stack.Transaction.Execute.has_conflicts
    stgit.Stack.Transaction.Execute.patch_edits stgit.Stack.Transaction.Execute.ref_edits
    stgit.Stack.Transaction.Execute.rollback stgit.Stack.Transaction.Execute.top_differs
    stgit.Stack.Transaction.Execute.updates_listed stgit.Stack.Transaction.Execute.write_state
    stgit.Stack.Transaction.Merge.get_parent_commit stgit.Stack.Transaction.Merge.index_outcome
    stgit.Stack.Transaction.Merge.merge_checked_out stgit.Stack.Transaction.Merge.merge_in_index
    stgit.Stack.Transaction.Merge.merge_in_worktree stgit.Stack.Transaction.Merge.merge_outcome
    stgit.Stack.Transaction.Merge.merge_trees stgit.Stack.Transaction.Merge.merged_tree
    stgit.Stack.Transaction.Merge.recommit stgit.Stack.Transaction.Push.push_patches
    stgit.Stack.Transaction.Push.check_merged stgit.Stack.Transaction.Push.finish_push
    stgit.Stack.Transaction.Push.moved_to_applied stgit.Stack.Transaction.Push.push_loop
    stgit.Stack.Transaction.Push.push_patch stgit.Stack.Transaction.Push.taken_out
    stgit.Stack.Transaction.Push.update_pushed stgit.Stack.Commit.check_head_top_mismatch
    stgit.Stack.Commit.commit stgit.Stack.Commit.group_parents stgit.Stack.Commit.insert_patches
    stgit.Stack.Commit.log_external_mods stgit.Stack.Commit.parent_set
    stgit.Stack.Commit.patch_commit_id stgit.Stack.Commit.remove_patches
    stgit.Stack.Commit.set_insert stgit.Stack.Commit.shift_remove
    stgit.Stack.Commit.simplified_parents stgit.Stack.Commit.state_tree
    stgit.Stack.Commit.update_reference stgit.Stack.Repository.ask stgit.Stack.Repository.expect
    stgit.Stack.Repository.map_err stgit.Stack.Repository.try_ask stgit.Stack.State.head_top_match
    stgit.Stack.State.is_head_top stgit.Stack.State.top
push_succeeds = refl
