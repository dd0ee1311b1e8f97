-- ===== src/Stack/Commit/Alive.antt =====
-- The parents that keep commits alive, in `StackState::commit` of src/stack/state.rs.
use stgit.Prelude.{
  true, false, ◌≡◌, sym, ap, subst, ◌∙◌, arith, not, List, [], ◌∷◌, ◌++◌, Option, none, some,
  contains, contains-count, count-append, count-cons, count-filter, filter, ℕ_eq, nat_eq, text_Eq,
  text_eq_iff, Option-cases, eq_refl, ◌==◌, inl, inr, Bool-cases,
}
use stgit.Host.{ObjectId, Commit}
use stgit.Patch.Name.{PatchName}
use stgit.Stack.State.{StackState, state_access, top}
use stgit.Stack.Commit.{set_insert, shift_remove, patch_commit_id, insert_patches, remove_patches}

-- A commit of a patch among the named ones.
abbrev pub IsPatchCommit : StackState → List PatchName → ObjectId → Type 0
IsPatchCommit state pns x =
    (pn : PatchName) × (contains pns pn ≡ true) × (patch_commit_id state pn ≡ some x)

-- The commits that a state needs: its head, its top, those of the patches that are not applied, and
-- the commit of the previous state.
pub data IsNeeded (state : StackState) (x : ObjectId) : Type 0 where
  of_head : x ≡ state.head.id → IsNeeded state x
  of_top : (c : Commit) → top state ≡ some c → x ≡ c.id → IsNeeded state x
  of_unapplied : IsPatchCommit state state.unapplied x → IsNeeded state x
  of_hidden : IsPatchCommit state state.hidden x → IsNeeded state x
  of_prev : (c : Commit) → state.prev ≡ some c → x ≡ c.id → IsNeeded state x

pub set_insert-keeps :
    (ids : List ObjectId) (id x : ObjectId)
    → contains ids x ≡ true
    → contains (set_insert ids id) x ≡ true
unfolding set_insert
set_insert-keeps ids id x h = ground (
  arith,
  h,
  contains-count ids x,
  contains-count (ids ++ id ∷ []) x,
  count-append x ids (id ∷ []),
)

pub set_insert-there :
    (ids : List ObjectId) (id : ObjectId) → contains (set_insert ids id) id ≡ true
unfolding set_insert
set_insert-there ids id = ground (
  arith,
  contains-count (ids ++ id ∷ []) id,
  count-append id ids (id ∷ []),
  count-cons id id [],
  eq_refl id,
)

shift_remove-keeps :
    (ids : List ObjectId) (id x : ObjectId)
    → nat_eq x id ≡ false
    → contains ids x ≡ true
    → contains (shift_remove ids id) x ≡ true
unfolding shift_remove
shift_remove-keeps ids id x n h = ground (
  arith,
  n,
  h,
  contains-count ids x,
  contains-count (filter (λ y. not (nat_eq y id)) ids) x,
  count-filter x (λ y. not (nat_eq y id)) ids,
)

some-same : {a b : ObjectId} → ◌≡◌ {A = Option ObjectId} (some a) (some b) → a ≡ b
some-same {a = a} h = ap (λ r. elim r [ some x ↦ x | none ↦ a ]) h

insert_patches-keeps :
    (state : StackState) (pns : List PatchName) (ids out : List ObjectId) (x : ObjectId)
    → insert_patches state pns ids ≡ some out
    → contains ids x ≡ true
    → contains out x ≡ true
unfolding insert_patches
insert_patches-keeps state [] ids out x = λ e h. ground (arith, e, h)
insert_patches-keeps state (pn ∷ pns) ids out x = elim (Option-cases (patch_commit_id state pn)) [
  | inl n ↦ rw (n, insert_patches) (λ e h. cc)
  | inr (id, k) ↦
      rw (k, insert_patches)
        (λ e h.
          insert_patches-keeps state pns (set_insert ids id) out x e (set_insert-keeps ids id x h))
]

insert_patches-there :
    (state : StackState) (pns : List PatchName) (ids out : List ObjectId) (x : ObjectId)
    → insert_patches state pns ids ≡ some out
    → IsPatchCommit state pns x
    → contains out x ≡ true
unfolding insert_patches contains
insert_patches-there state [] ids out x = λ e (pn, h, k). ground (arith, h)
insert_patches-there state (qn ∷ pns) ids out x = elim (Option-cases (patch_commit_id state qn)) [
  | inl n ↦ rw (n, insert_patches) (λ e h. cc)
  | inr (id, j) ↦
      rw (j, insert_patches)
        (λ e (pn, h, k). elim (Bool-cases (pn == qn)) [
          | inl y ↦ insert_patches-keeps state pns (set_insert ids id) out x e (
              subst (λ z. contains (set_insert ids id) z ≡ true)
                (some-same (sym j ∙ ap (patch_commit_id state) (sym ((text_eq_iff pn qn).0 y)) ∙ k))
                (set_insert-there ids id))
          | inr n ↦
              insert_patches-there state pns (set_insert ids id) out x e
                (pn, ground (arith, h, n), k)
        ])
]

pub remove_patches-keeps :
    (state : StackState) (pns : List PatchName) (ids out : List ObjectId) (x : ObjectId)
    → remove_patches state pns ids ≡ some out
    → (IsPatchCommit state pns x → ⊥)
    → contains ids x ≡ true
    → contains out x ≡ true
unfolding remove_patches contains
remove_patches-keeps state [] ids out x = λ e f h. ground (arith, e, h)
remove_patches-keeps state (pn ∷ pns) ids out x = elim (Option-cases (patch_commit_id state pn)) [
  | inl n ↦ rw (n, remove_patches) (λ e f h. cc)
  | inr (id, k) ↦
      rw (k, remove_patches)
        (λ e f h.
          remove_patches-keeps state pns (shift_remove ids id) out x e
            (λ (qn, m, j). f (qn, ground (arith, m), j))
            (shift_remove-keeps ids id x (other pn pns id x f k) h))
]
  where
    other :
        (pn : PatchName) (pns : List PatchName) (id x : ObjectId)
        → (IsPatchCommit state (pn ∷ pns) x → ⊥)
        → patch_commit_id state pn ≡ some id
        → nat_eq x id ≡ false
    other pn pns id x f k = elim (Bool-cases (nat_eq x id)) [
      | inr n ↦ n
      | inl y ↦ absurd (f (pn, ground (arith, eq_refl pn), k ∙ ap some (sym (ground (arith, y)))))
    ]

pub first_ids-needed :
    (state : StackState) (top_commit : Commit) (before_hidden ids : List ObjectId) (x : ObjectId)
    → top state ≡ some top_commit
    → insert_patches state state.unapplied (set_insert (state.head.id ∷ []) top_commit.id)
      ≡ some before_hidden
    → insert_patches state state.hidden before_hidden ≡ some ids
    → ((c : Commit) → state.prev ≡ some c → x ≡ c.id → ⊥)
    → IsNeeded state x
    → contains ids x ≡ true
unfolding contains
first_ids-needed state c us ids x t e f g (of_head h) =
    insert_patches-keeps state state.hidden us ids x f (
      insert_patches-keeps state state.unapplied _ us x e
        (set_insert-keeps (state.head.id ∷ []) c.id x (ground (arith, h, eq_refl x))))
first_ids-needed state c us ids x t e f g (of_top c' h k) =
    insert_patches-keeps state state.hidden us ids x f (
      insert_patches-keeps state state.unapplied _ us x e (
        subst (λ z. contains (set_insert (state.head.id ∷ []) c.id) z ≡ true)
          (ap (λ (o : Option Commit). elim o [ some d ↦ d.id | none ↦ x ]) (sym t ∙ h) ∙ sym k)
          (set_insert-there (state.head.id ∷ []) c.id)))
first_ids-needed state c us ids x t e f g (of_unapplied h) =
    insert_patches-keeps state state.hidden us ids x f
      (insert_patches-there state state.unapplied _ us x e h)
first_ids-needed state c us ids x t e f g (of_hidden h) =
    insert_patches-there state state.hidden us ids x f h
first_ids-needed state c us ids x t e f g (of_prev d h k) = absurd (g d h k)
