-- ===== src/Stack/Transaction/Push/Merging.antt =====
-- The merge and the new commit of `push_patch`, src/stack/transaction/mod.rs: how they end.
use stgit.Prelude.{
  Text, Bool, true, false, not, ◌&&◌, ◌≡◌, refl, ◌∙◌, arith, Option, if◌then◌else◌, Option-cases,
  inl, inr, lookup-insert, text_Eq, text_eq_iff, nat_eq, head?,
}
use stgit.Exec.{
  Error, failed, bail, checkout_conflicts, halt, panic, Result, ok, err, pure, raise, ◌>>=◌,
}
use stgit.Host.{Signature, ObjectId, Commit, Reply, done, fault, PushStatus, Call, Host}
use stgit.Patch.Name.{PatchName}
use stgit.Stack.Transaction.Defs.{StackTransaction, has_patch, try_call, M}
use stgit.Stack.Transaction.Ends.{
  Post, Returns, Ends-returns, Ends, Ends-get, Ends-put, Ends-call, Ends-pure, Ends-raise,
  Ends-last, Ends-bind, Ends-config, Ends-attempt, Ends-try_call, Ends-mono, Holds,
}
use stgit.Stack.Transaction.Lists.{with_updated}
use stgit.Stack.Transaction.Names.{patch_at}
use stgit.Stack.Transaction.Merge.{
  merge_in_worktree, merge_in_index, merge_trees, get_parent_commit, recommit, is_tree, is_conflict,
  config_or, merged_tree, merge_outcome, merge_checked_out, index_outcome,
}
use stgit.Stack.Transaction.Push.{update_pushed}

-- The lists and the original stack stay, and so do the patches that the transaction has.
pub record Frame (t u : StackTransaction) : Type 0 where
  pub stack : u.stack ≡ t.stack
  pub applied : u.applied ≡ t.applied
  pub unapplied : u.unapplied ≡ t.unapplied
  pub hidden : u.hidden ≡ t.hidden
  pub has : (a : PatchName) → has_patch u a ≡ has_patch t a

pub Frame-refl : (t : StackTransaction) → Frame t t
Frame-refl t = record {
  stack = refl;
  applied = refl;
  unapplied = refl;
  hidden = refl;
  has = λ a. refl;
}

pub Frame-trans : {t u v : StackTransaction} → Frame t u → Frame u v → Frame t v
Frame-trans f g = record {
  stack = g.stack ∙ f.stack;
  applied = g.applied ∙ f.applied;
  unapplied = g.unapplied ∙ f.unapplied;
  hidden = g.hidden ∙ f.hidden;
  has = λ a. g.has a ∙ f.has a;
}

-- A change of the recorded tree of the working tree, or of the head.
Frame-tree :
    (t : StackTransaction) (tree_id : ObjectId) → Frame t (record t { current_tree_id = tree_id })
unfolding has_patch
Frame-tree t tree_id = record {
  stack = refl;
  applied = refl;
  unapplied = refl;
  hidden = refl;
  has = λ a. refl;
}

-- The merge changes no list. It halts with no conflict recorded, and does not panic.
abbrev pub Framed : {A : Type 0} → StackTransaction → Post A
Framed t (ok a) u = Frame t u
Framed t (err (halt message conflicts)) u = (conflicts ≡ false) × Frame t u
Framed t (err (bail message)) u = Unit
Framed t (err _) u = ⊥

-- The rule of a branch, with its test first.
pub if-Ends :
    {W A : Type 0} {t : StackTransaction} {Q : Post A} (b : Bool) {m n : M W A}
    → Ends m t Q
    → Ends n t Q
    → Ends (if b then m else n) t Q
if-Ends true h k = h
if-Ends false h k = k

-- A method that starts in a framed transaction.
Framed-weaken :
    {A : Type 0} {t u : StackTransaction}
    → Frame t u
    → (r : Result A) (v : StackTransaction) → Framed u r v
    → Holds (Framed t) r v
Framed-weaken f (ok a) v h = Frame-trans f h
Framed-weaken f (err (failed message)) v h = tt
Framed-weaken f (err (bail message)) v h = tt
Framed-weaken f (err (checkout_conflicts message)) v h = absurd h
Framed-weaken f (err (halt message conflicts)) v h = (h.0, Frame-trans f h.1)
Framed-weaken f (err panic) v h = absurd h

pub Framed-Frame :
    {W A : Type 0} {m : M W A} {t u : StackTransaction}
    → Frame t u
    → Ends m u (Framed u)
    → Ends m u (Framed t)
Framed-Frame f h = Ends-mono _ _ (Framed-weaken f) h

Framed-stop :
    (A B : Type 0) (t : StackTransaction) (e : Error) (u : StackTransaction)
    → Framed {A = A} t (err e) u
    → Holds (Framed {A = B} t) (err e) u
Framed-stop A B t (failed message) u h = tt
Framed-stop A B t (bail message) u h = tt
Framed-stop A B t (checkout_conflicts message) u h = h
Framed-stop A B t (halt message conflicts) u h = h
Framed-stop A B t panic u h = h

pub Framed-bind :
    {W A B : Type 0} {m : M W A} {f : A → M W B} {t : StackTransaction}
    → Ends m t (Framed t)
    → ((a : A) (u : StackTransaction) → Frame t u → Ends (f a) u (Framed t))
    → Ends (m >>= f) t (Framed t)
Framed-bind {A = A} {B} {m = m} {f = f} {t} h k = Ends-bind _ _ f m h k (Framed-stop A B t)

try_call-Returns :
    {W A : Type 0} (c : Call W A) {t : StackTransaction} → Ends (try_call c) t (Returns t)
unfolding try_call
try_call-Returns c = record { at = λ w. (refl, tt) }

Ends-raise_halt :
    {W A : Type 0} (t : StackTransaction) (message : Text)
    → Ends {W = W} {A = A} (raise (halt message false)) t (Framed t)
Ends-raise_halt t message = Ends-raise _ _ (refl, Frame-refl t)

module _ {W : Type 0} (host : Host W) where
  merged_tree-Ends :
      (r : Reply ObjectId) (t : StackTransaction) → Ends (merged_tree host r) t (Framed t)
  unfolding merged_tree
  merged_tree-Ends (fault message) t = Ends-raise_halt t _
  merged_tree-Ends (done tree_id) t =
      Ends-get _ _ (Ends-put _ _ _ (Ends-pure _ _ (Frame-tree t tree_id)))

  merge_outcome-Ends :
      (ours : ObjectId) (r : Reply Bool) (t : StackTransaction)
      → Ends (merge_outcome host ours r) t (Framed t)
  unfolding merge_outcome
  merge_outcome-Ends ours (fault message) t = Ends-raise_halt t message
  merge_outcome-Ends ours (done true) t = Ends-try_call _ _ _ (λ r. merged_tree-Ends r t)
  merge_outcome-Ends ours (done false) t = Ends-pure _ _ (Frame-refl t)

  merge_checked_out-Ends :
      (base ours theirs : ObjectId) (r : Reply (Unit {0})) (t : StackTransaction)
      → Ends (merge_checked_out host base ours theirs r) t (Framed t)
  unfolding merge_checked_out
  merge_checked_out-Ends base ours theirs (fault message) t = Ends-raise_halt t _
  merge_checked_out-Ends base ours theirs (done _) t = Ends-get _ _ (
      Ends-put _ _ _ (
        Ends-config _ _ _ _ (λ o.
          Ends-try_call _ _ _
            (λ r. Framed-Frame (Frame-tree t ours) (merge_outcome-Ends ours r _)))))

  merge_in_worktree-Ends :
      (pn : PatchName) (base ours theirs : ObjectId) (t : StackTransaction)
      → Ends (merge_in_worktree host pn base ours theirs) t (Framed t)
  unfolding merge_in_worktree
  merge_in_worktree-Ends pn base ours theirs t = Ends-get _ _ (
      Ends-config _ _ _ _ (λ configured.
        if-Ends (not t.options.use_index_and_worktree) (Ends-raise_halt t _) (
          if-Ends (not (config_or (config_or true configured) t.options.allow_push_conflicts))
            (Ends-raise_halt t _)
            (Ends-try_call _ _ _ (λ r. merge_checked_out-Ends base ours theirs r t)))))

  index_outcome-Ends :
      (pn : PatchName) (base ours theirs : ObjectId) (r : Reply ObjectId) (t : StackTransaction)
      → Ends (index_outcome host pn base ours theirs r) t (Framed t)
  unfolding index_outcome
  index_outcome-Ends pn base ours theirs (done tree_id) t = Ends-pure _ _ (Frame-refl t)
  index_outcome-Ends pn base ours theirs (fault message) t =
      merge_in_worktree-Ends pn base ours theirs t

  merge_in_index-Ends :
      (pn : PatchName) (base ours theirs : ObjectId) (temp : Option ObjectId) (t : StackTransaction)
      → Ends (merge_in_index host pn base ours theirs temp) t (Framed t)
  unfolding merge_in_index
  merge_in_index-Ends pn base ours theirs temp t =
      Ends-returns _ _ t
        (if-Ends (is_tree temp ours) (Ends-pure _ _ (refl, tt)) (Ends-last _ _ (λ _. (refl, tt))))
        (λ _. Ends-call _ _ _ (λ applies.
          Ends-returns _ _ t (if-Ends applies (try_call-Returns _) (Ends-pure _ _ (refl, tt))) (λ r.
            Framed-bind (index_outcome-Ends pn base ours theirs r t) (λ a u f. Ends-pure _ _ f))))

  pub merge_trees-Ends :
      (pn : PatchName) (is_merged : Bool) (patch_commit old_parent new_parent : Commit)
      (temp : Option ObjectId) (t : StackTransaction)
      → Ends (merge_trees host pn is_merged patch_commit old_parent new_parent temp) t (Framed t)
  unfolding merge_trees
  merge_trees-Ends pn is_merged c o n temp t =
      let stays : (r : (ObjectId × PushStatus) × Option ObjectId)
          → Ends {W = W} (pure r) t (Framed t) =
        λ r. Ends-pure _ _ (Frame-refl t) in
      if-Ends is_merged (stays _) (
        if-Ends (nat_eq o.tree_id n.tree_id) (stays _) (
          if-Ends (nat_eq o.tree_id c.tree_id) (stays _) (
            if-Ends (nat_eq n.tree_id c.tree_id) (stays _) (
              if-Ends (is_tree temp c.tree_id)
                (merge_in_index-Ends pn o.tree_id c.tree_id n.tree_id temp t)
                (merge_in_index-Ends pn o.tree_id n.tree_id c.tree_id temp t)))))

  pub get_parent_commit-Ends :
      (commit : Commit) (t : StackTransaction) → Ends (get_parent_commit host commit) t (Framed t)
  unfolding get_parent_commit
  get_parent_commit-Ends commit t = elim (Option-cases (head? commit.parent_ids)) [
    | inl e ↦ rw (e, get_parent_commit) (Ends-raise _ _ tt)
    | inr (id, e) ↦ rw (e, get_parent_commit) (Ends-last _ _ (λ _. Frame-refl t))
  ]

  pub recommit-Ends :
      (author committer : Signature) (commit : Commit) (tree_id parent_id : ObjectId)
      (t : StackTransaction)
      → Ends (recommit host author committer commit tree_id parent_id) t (Returns t)
  unfolding recommit
  recommit-Ends author committer commit tree_id parent_id t = Ends-get _ _ (
      Ends-call _ _ _
        (λ id. Ends-call _ _ _ (λ new. Ends-attempt _ _ _ (Ends-pure _ _ (refl, tt)))))

  Frame-updated :
      (t : StackTransaction) (pn : PatchName) (commit : Commit) (new_head : Option Commit)
      → has_patch t pn ≡ true
      → Frame t (with_updated (record t { updated_head = new_head }) pn (patch_at commit))
  unfolding has_patch
  Frame-updated t pn commit new_head h = record {
    stack = refl;
    applied = refl;
    unapplied = refl;
    hidden = refl;
    has = λ a.
        ground (arith, lookup-insert pn a (patch_at commit) t.updated_patches, text_eq_iff pn a, h);
  }

  pub update_pushed-Ends :
      (committer : Signature) (pn : PatchName) (c o n : Commit) (tree_id : ObjectId)
      (status : PushStatus) (t : StackTransaction)
      → has_patch t pn ≡ true
      → Ends (update_pushed host committer pn c o n tree_id status) t (Framed t)
  unfolding update_pushed
  update_pushed-Ends committer pn c o n tree_id status t h =
      if-Ends (nat_eq tree_id c.tree_id && nat_eq n.id o.id) (Ends-pure _ _ (Frame-refl t)) (
        Ends-call _ _ _ (λ author.
          Ends-returns _ _ t (recommit-Ends author committer c tree_id n.id t) (λ commit.
            Ends-get _ _ (
              if-Ends (is_conflict status)
                (Ends-put _ _ _ (Ends-pure _ _ (Frame-updated t pn commit _ h)))
                (Ends-put _ _ _ (Ends-pure _ _ (Frame-updated t pn commit _ h)))))))
