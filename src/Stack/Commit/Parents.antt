-- ===== src/Stack/Commit/Parents.antt =====
-- The grouping of parents in `StackState::commit` of src/stack/state.rs.
use stgit.Prelude.{
  ℕ, zero, suc, ◌-◌, ◌≤◌, true, ◌≡◌, arith, List, [], ◌∷◌, ◌++◌, length, take, drop, leb,
  length-append, length-take, length-drop, contains, contains-count, count-append, count-take-drop,
  count-cons, ◌⊎◌, inl, inr, ℕ_eq, Bool-cases, eq_refl,
}
use stgit.Exec.{Exec}
use stgit.Host.{ObjectId}
use stgit.Stack.Repository.{Repository}
use stgit.Stack.Commit.{group_parents, max_parents}
use stgit.Stack.Transaction.Execute.Yields.{
  Yields, Yields-mono, Yields-pure, Yields-branch, Yields-bind,
}

-- From a commit, over its parents, over theirs and so on.
pub data Reaches (IsParent : ObjectId → ObjectId → Type 0) : ObjectId → ObjectId → Type 0 where
  self : {x : ObjectId} → Reaches IsParent x x
  over : {y z x : ObjectId} → Reaches IsParent y z → IsParent z x → Reaches IsParent y x

-- One of the ids reaches the commit.
abbrev pub IsReached : (ObjectId → ObjectId → Type 0) → List ObjectId → ObjectId → Type 0
IsReached IsParent oids x = (y : ObjectId) × (contains oids y ≡ true) × Reaches IsParent y x

-- The parents of a new commit are the given ones.
abbrev pub IsCommitOf : (ObjectId → ObjectId → Type 0) → List ObjectId → ObjectId → Type 0
IsCommitOf IsParent parents oid = (x : ObjectId) → contains parents x ≡ true → IsParent oid x

kept-or-grouped :
    (kept : ℕ) (oids : List ObjectId) (group_oid x : ObjectId)
    → contains oids x ≡ true
    → (contains (take kept oids ++ group_oid ∷ []) x ≡ true) ⊎ (contains (drop kept oids) x ≡ true)
kept-or-grouped kept oids group_oid x h = elim (Bool-cases (contains (drop kept oids) x)) [
  | inl y ↦ inr y
  | inr n ↦ inl (
      ground (
        arith,
        n,
        h,
        contains-count oids x,
        contains-count (drop kept oids) x,
        contains-count (take kept oids ++ group_oid ∷ []) x,
        count-append x (take kept oids) (group_oid ∷ []),
        count-take-drop x kept oids,
      ))
]

group-there :
    (oids : List ObjectId) (group_oid : ObjectId)
    → contains (oids ++ group_oid ∷ []) group_oid ≡ true
group-there oids group_oid = ground (
  arith,
  contains-count (oids ++ group_oid ∷ []) group_oid,
  count-append group_oid oids (group_oid ∷ []),
  count-cons group_oid group_oid [],
  eq_refl group_oid,
)

module _ {W : Type 0} (repo : Repository W) (IsParent : ObjectId → ObjectId → Type 0) where
  IsReached-grouped :
      (kept : ℕ) (parent_oids : List ObjectId) (group_oid : ObjectId) (oids : List ObjectId)
      → IsCommitOf IsParent (drop kept parent_oids) group_oid
      → ((x : ObjectId)
          → contains (take kept parent_oids ++ group_oid ∷ []) x ≡ true
          → IsReached IsParent oids x)
      → (x : ObjectId) → contains parent_oids x ≡ true
      → IsReached IsParent oids x
  IsReached-grouped kept parent_oids group_oid oids made keep x h =
      elim (kept-or-grouped kept parent_oids group_oid x h) [
        | inl k ↦ keep x k
        | inr g ↦
            let (y, m, r) = keep group_oid (group-there (take kept parent_oids) group_oid) in
            (y, m, Reaches.over r (made x g))
      ]

  -- Where the grouping commit of at most `MAX_PARENTS` ids has them as its parents, the grouping of
  -- `StackState::commit`, with as many rounds as there are parent ids, or more, leaves, in every
  -- world where it returns, at most `MAX_PARENTS` ids, from which each of the parent ids is reached
  -- over parents.
  pub group_parents-Reached :
      (rounds : ℕ) (commit_group : List ObjectId → Exec W ObjectId) (parent_oids : List ObjectId)
      → ((group : List ObjectId)
          → length group ≤ max_parents
          → Yields (commit_group group) (IsCommitOf IsParent group))
      → length parent_oids ≤ rounds
      → Yields (group_parents repo rounds commit_group parent_oids) (λ oids.
        (length oids ≤ max_parents)
        × ((x : ObjectId) → contains parent_oids x ≡ true → IsReached IsParent oids x))
  unfolding group_parents
  group_parents-Reached zero commit_group parent_oids commits h =
      Yields-pure _ _ (omega arith, λ x k. (x, k, Reaches.self))
  group_parents-Reached (suc rounds) commit_group parent_oids commits h =
      let kept = length parent_oids - max_parents in
      Yields-branch _ (leb (length parent_oids) max_parents)
        (λ e. Yields-pure _ _ (ground arith, λ x k. (x, k, Reaches.self)))
        (λ e.
          Yields-bind _ _
            (commits (drop kept parent_oids) (ground (arith, length-drop kept parent_oids)))
            (λ group_oid made.
              Yields-mono _ _
                (λ oids (bound, keep).
                  (bound, IsReached-grouped kept parent_oids group_oid oids made keep))
                (group_parents-Reached rounds commit_group _ commits (
                  ground (
                    arith,
                    length-append (take kept parent_oids) (group_oid ∷ []),
                    length-take kept parent_oids,
                  )))))
