-- ===== src/Stack/Commit/Reached.antt =====
-- The commits that a state commit of `StackState::commit` in src/stack/state.rs keeps alive.
use stgit.Prelude.{
  suc, ◌≤◌, true, false, ◌≡◌, refl, sym, ap, subst, ◌∙◌, arith, Text, Bool, List, [], ◌∷◌, Option,
  none, some, length, contains, ℕ_eq, nat_eq, text_Eq, inl, inr, Bool-cases,
}
use stgit.Exec.{pure, ◌>>=◌}
use stgit.Host.{ObjectId, Commit, Signature}
use stgit.Stack.Access.{all_patches}
use stgit.Stack.State.{StackState, state_access, top}
use stgit.Stack.Repository.{Repository, ask, expect}
use stgit.Stack.Commit.{
  max_parents, set_insert, insert_patches, remove_patches, parent_set, state_tree, commit,
}
use stgit.Stack.Commit.Parents.{Reaches, IsCommitOf, group_parents-Reached}
use stgit.Stack.Transaction.Execute.Yields.{
  Yields, Yields-pure, Yields-expect, Yields-then, Yields-bind,
}
use stgit.Stack.Commit.Alive.{
  IsPatchCommit, IsNeeded, set_insert-keeps, set_insert-there, remove_patches-keeps,
  first_ids-needed,
}

-- The state that a commit holds, of the previous commit if there is one.
abbrev prev_state_of : (Commit → StackState) → Option Commit → Option StackState
prev_state_of state_of none = none
prev_state_of state_of (some c) = some (state_of c)

-- The commit of a patch of the previous state, which the previous state's commit keeps alive.
abbrev pub IsOfPrev : (Commit → StackState) → StackState → ObjectId → Type 0
IsOfPrev state_of state x =
    (c : Commit) × (state.prev ≡ some c) × IsPatchCommit (state_of c) (all_patches (state_of c)) x

-- What the repository does: a commit with at most `MAX_PARENTS + 1` parents has the given ones, and
-- the tree of a state's commit holds that state.
pub record IsRepository {W : Type 0} (repo : Repository W) (IsParent : ObjectId → ObjectId → Type 0)
    (state_of : Commit → StackState) : Type 0 where
  pub commits :
      (author committer : Signature) (message : Text) (tree : ObjectId) (parents : List ObjectId)
      (gpgsign : Bool)
      → length parents ≤ suc max_parents
      → Yields
          (ask (repo.commit_with_options author committer message tree parents gpgsign))
          (IsCommitOf IsParent parents)
  pub reads : (c : Commit) → Yields (ask (repo.read_state_tree c)) (λ s. s ≡ state_of c)

nat_same : (x y : ObjectId) → nat_eq x y ≡ true → x ≡ y
nat_same x y h = ground arith

differs :
    (x : ObjectId) (d d' : Commit)
    → nat_eq x d.id ≡ false
    → ◌≡◌ {A = Option Commit} (some d) (some d')
    → x ≡ d'.id
    → ⊥
differs x d d' n h k =
    let same : d.id ≡ d'.id = ap (λ (o : Option Commit). elim o [ some z ↦ z.id | none ↦ x ]) h in
    ground (arith, n, same, k)

module _ {W : Type 0} (repo : Repository W) where
  -- The last part of `parent_set`.
  prev-Yields :
      (Q : List ObjectId → Type 0) (prev : Option Commit) (prev_state : Option StackState)
      (ids : List ObjectId)
      → (prev ≡ none → Q ids)
      → ((c : Commit) (s : StackState) (out : List ObjectId)
          → prev ≡ some c
          → prev_state ≡ some s
          → remove_patches s (all_patches s) (set_insert ids c.id) ≡ some out
          → Q out)
      → Yields {W = W}
          (elim prev [
            | none ↦ pure ids
            | some prev_commit ↦ do
              prev_state' ← expect prev_state
              expect (
                  remove_patches prev_state'
                    (all_patches prev_state')
                    (set_insert ids prev_commit.id))
          ])
          Q
  prev-Yields Q none prev_state ids h k = Yields-pure _ ids (h refl)
  prev-Yields Q (some c) prev_state ids h k =
      Yields-bind _ _ (Yields-expect _ prev_state (λ s e. e))
        (λ s e. Yields-expect _ _ (λ out f. k c s out refl e f))

  parent_set-IsNeeded :
      (state_of : Commit → StackState) (state : StackState) (prev_state : Option StackState)
      → prev_state ≡ prev_state_of state_of state.prev
      → Yields (parent_set repo state prev_state) (λ ids.
        (x : ObjectId) → IsNeeded state x → (IsOfPrev state_of state x → ⊥) → contains ids x ≡ true)
  unfolding parent_set
  parent_set-IsNeeded state_of state prev_state p =
      Yields-bind _ _ (Yields-expect _ _ (λ c t. t)) (λ c t.
        Yields-bind _ _ (Yields-expect _ _ (λ us e. e)) (λ us e.
          Yields-bind _ _ (Yields-expect _ _ (λ ids f. f)) (λ ids f.
            prev-Yields _ state.prev prev_state ids
              (λ n x needed out.
                first_ids-needed state c us ids x t e f (λ d h k. cc (n, h)) needed)
              (λ d s out h k r x needed free.
                remove_patches-keeps s (all_patches s) (set_insert ids d.id) out x r
                  (λ held. free (d, h, held_state d s h k x held))
                  (with_prev c us ids d t e f h x needed)))))
    where
      held_state :
          (d : Commit) (s : StackState)
          → state.prev ≡ some d
          → prev_state ≡ some s
          → (x : ObjectId) → IsPatchCommit s (all_patches s) x
          → IsPatchCommit (state_of d) (all_patches (state_of d)) x
      held_state d s h k x held =
          subst (λ z. IsPatchCommit z (all_patches z) x)
            (ap (λ (o : Option StackState). elim o [ some z ↦ z | none ↦ s ])
              (sym k ∙ p ∙ ap (prev_state_of state_of) h))
            held

      with_prev :
          (c : Commit) (us ids : List ObjectId) (d : Commit)
          → top state ≡ some c
          → insert_patches state state.unapplied (set_insert (state.head.id ∷ []) c.id) ≡ some us
          → insert_patches state state.hidden us ≡ some ids
          → state.prev ≡ some d
          → (x : ObjectId) → IsNeeded state x
          → contains (set_insert ids d.id) x ≡ true
      with_prev c us ids d t e f h x needed = elim (Bool-cases (nat_eq x d.id)) [
        | inl y ↦
            subst (λ z. contains (set_insert ids d.id) z ≡ true) (sym (nat_same x d.id y))
              (set_insert-there ids d.id)
        | inr n ↦ set_insert-keeps ids d.id x (
            first_ids-needed state c us ids x t e f (λ d' h' k. differs x d d' n (sym h ∙ h') k)
              needed)
      ]

prepend :
    {IsParent : ObjectId → ObjectId → Type 0} {z y x : ObjectId}
    → IsParent z y
    → Reaches IsParent y x
    → Reaches IsParent z x
prepend p Reaches.self = Reaches.over Reaches.self p
prepend p (Reaches.over r q) = Reaches.over (prepend p r) q

contains-tail :
    (id : ObjectId) (ids : List ObjectId) (x : ObjectId)
    → contains ids x ≡ true
    → contains (id ∷ ids) x ≡ true
unfolding contains
contains-tail id ids x h = ground (arith, h)

module _ {W : Type 0} (repo : Repository W) (IsParent : ObjectId → ObjectId → Type 0)
    (state_of : Commit → StackState) where
  state_tree-reads :
      IsRepository repo IsParent state_of
      → (state : StackState)
      → Yields (state_tree repo state) (λ p. p.1 ≡ prev_state_of state_of state.prev)
  unfolding state_tree
  state_tree-reads r state = on state.prev
    where
      on :
          (prev : Option Commit)
          → Yields {W = W} {A = ObjectId × Option StackState}
              (elim prev [
                | none ↦ do tree ← ask (repo.write_state_tree state none); pure (tree, none)
                | some prev_commit ↦ do
                  prev_state ← ask (repo.read_state_tree prev_commit)
                  tree ← ask (repo.write_state_tree state (some (prev_state, prev_commit)))
                  pure (tree, some prev_state)
              ])
              (λ p. p.1 ≡ prev_state_of state_of prev)
      on none = Yields-then _ _ (λ tree. Yields-pure _ _ refl)
      on (some c) =
          Yields-bind _ _ (r.reads c) (λ s e. Yields-then _ _ (λ tree. Yields-pure _ _ (ap some e)))

  -- Where a commit made with at most `MAX_PARENTS` + 1 parents has the given parents and the tree
  -- of a state's commit holds that state, the commit that `StackState::commit` returns, in every
  -- world where it returns one, reaches over parents each commit that the state needs and that is
  -- not of a patch of the previous state: the head, the top, the commits of the unapplied and the
  -- hidden patches and the commit of the previous state.
  pub commit-Reaches :
      IsRepository repo IsParent state_of
      → (state : StackState) (update_ref : Bool) (message : Text)
      → Yields (commit repo state update_ref message) (λ oid.
        (x : ObjectId)
        → IsNeeded state x
        → (IsOfPrev state_of state x → ⊥)
        → Reaches IsParent oid x)
  unfolding commit
  commit-Reaches r state update_ref message = Yields-bind _ _ (state_tree-reads r state) (λ p e.
      Yields-then _ _ (λ committer. Yields-then _ _ (λ author. Yields-then _ _ (λ simplified.
        Yields-then _ _ (λ gpgsign. Yields-then _ _ (λ simplified_id.
          Yields-bind _ _ (parent_set-IsNeeded repo state_of state p.1 e) (λ ids needed.
            Yields-bind _ _
              (group_parents-Reached repo IsParent (length ids) _ ids
                (λ group h. r.commits _ _ _ _ group _ (omega (arith, h))) (omega arith))
              (λ grouped (bound, keep).
                Yields-bind _ _
                  (r.commits _ _ _ _ (simplified_id ∷ grouped) _ (omega (arith, bound)))
                  (λ oid made. Yields-then _ _ (λ _. Yields-pure _ oid (λ x n f.
                    let (y, m, q) = keep x (needed x n f) in
                    prepend (made y (contains-tail simplified_id grouped y m)) q)))))))))))
