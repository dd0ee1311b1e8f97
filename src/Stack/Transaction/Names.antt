-- ===== src/Stack/Transaction/Names.antt =====
-- src/stack/transaction/mod.rs: the methods of `StackTransaction` that add, update, rename and
-- uncommit patches, and `repair_appliedness`.
pub mod Substitution
pub mod Rename
pub mod Uncommit
pub mod Repair
use stgit.Prelude.{
  ℕ, Bool, true, false, not, ◌&&◌, List, [], ◌∷◌, ◌++◌, Option, none, some, lookup, insert, remove,
  contains_key, contains, position, filter, length, insert_idx, set, codes, is_empty, ◌==◌,
  if◌then◌else◌, text_Eq, nat_eq, leb, head?,
}
use stgit.Exec.{bail, pure, raise, ◌>>=◌, ◌>>◌}
use stgit.Host.{ObjectId, Commit, added, Host, popped, uncommitted, renamed, pushed, updated}
use stgit.Patch.Name.{PatchName}
use stgit.Stack.Access.{PatchState, all_patches, colliding}
use stgit.Stack.State.{stack_access}
use stgit.Stack.Transaction.Defs.{
  StackTransaction, transaction_access, M, get, put, call, attempt, assert, print, unwrap, top,
  get_patch,
}
use stgit.Stack.Transaction.Lists.{with_updated}

-- `Some(PatchState { commit })`
abbrev pub patch_at : Commit → Option PatchState
patch_at commit = some (record { commit = commit })

module _ {W : Type 0} (host : Host W) where
  unfoldable pub update_patch : PatchName → ObjectId → M W (Unit {0})
  update_patch patchname commit_id = do
    commit ← call (host.find_commit commit_id)
    self ← get
    old_patch ← unwrap (get_patch self patchname)
    attempt (host.notes_copy old_patch.commit.id commit_id)
    put (with_updated self patchname (patch_at commit))
    print host (updated patchname)

  unfoldable pub new_applied : PatchName → ObjectId → M W (Unit {0})
  new_applied patchname oid = do
    commit ← call (host.find_commit oid)
    self ← get
    parent_id ← unwrap (head? commit.parent_ids)
    top_commit ← unwrap (top self)
    assert (nat_eq parent_id top_commit.id)
    put (
        with_updated (record self { applied = self.applied ++ patchname ∷ [] }) patchname
          (patch_at commit))
    print host (pushed patchname added true)

  -- `Vec::insert` panics at a position behind the end.
  unfoldable pub new_unapplied : PatchName → ObjectId → ℕ → M W (Unit {0})
  new_unapplied patchname commit_id insert_pos = do
    commit ← call (host.find_commit commit_id)
    self ← get
    assert (leb insert_pos (length self.unapplied))
    put (
        with_updated (record self { unapplied = insert_idx self.unapplied insert_pos patchname })
          patchname (patch_at commit))
    print host (popped (patchname ∷ []))

  -- The loop of `uncommit_patches`: the commits are looked up in order.
  unfoldable pub uncommit_loop : List (PatchName × ObjectId) → List PatchName → M W (List PatchName)
  uncommit_loop [] new_applied = pure new_applied
  uncommit_loop ((patchname, commit_id) ∷ patches) new_applied = do
    commit ← call (host.find_commit commit_id)
    self ← get
    put (with_updated self patchname (patch_at commit))
    uncommit_loop patches (new_applied ++ patchname ∷ [])

  unfoldable pub uncommit_patches : List (PatchName × ObjectId) → M W (Unit {0})
  unfolding uncommit_loop
  uncommit_patches patches = do
    new_applied ← uncommit_loop patches []
    print host (uncommitted new_applied)
    self ← get
    put (record self { applied = new_applied ++ self.applied })

-- The test of `rename_patch` under which it reports a collision: the first patch of the original
-- stack that collides with the new name is another patch, and the transaction has updated it.
unfoldable pub reports_collision : StackTransaction → PatchName → PatchName → Bool
reports_collision self old_patchname new_patchname = elim (colliding self.stack new_patchname) [
  | some colliding_patchname ↦
      not (colliding_patchname == old_patchname)
      && contains_key self.updated_patches colliding_patchname
  | none ↦ false
]

-- The position that holds the old name gets the new one, in the first list that has it.
unfoldable pub rename_in_lists : StackTransaction → PatchName → PatchName → Option StackTransaction
rename_in_lists self old_patchname new_patchname =
    elim (position (λ pn. pn == old_patchname) self.applied) [
      | some pos ↦ some (record self { applied = set self.applied pos new_patchname })
      | none ↦ elim (position (λ pn. pn == old_patchname) self.unapplied) [
        | some pos ↦ some (record self { unapplied = set self.unapplied pos new_patchname })
        | none ↦ elim (position (λ pn. pn == old_patchname) self.hidden) [
          | some pos ↦ some (record self { hidden = set self.hidden pos new_patchname })
          | none ↦ none
        ]
      ]
    ]

-- `if let Some(Some(patch_state)) = self.updated_patches.remove(old)`, else the patch of the
-- original stack.
unfoldable pub renamed_patch : StackTransaction → PatchName → Option PatchState
renamed_patch self old_patchname = elim (lookup old_patchname self.updated_patches) [
  | some maybe_patch ↦ elim maybe_patch [
    | some patch_state ↦ some patch_state
    | none ↦ lookup old_patchname self.stack.state.patches
  ]
  | none ↦ lookup old_patchname self.stack.state.patches
]

-- The updates that a rename leaves: the old name is removed and then marked as deleted.
abbrev pub rename_updates : StackTransaction → PatchName → PatchName → PatchState → StackTransaction
rename_updates self old_patchname new_patchname patch_state = record self {
  updated_patches =
      insert new_patchname (some patch_state)
        (insert old_patchname none (remove old_patchname self.updated_patches));
}

module _ {W : Type 0} (host : Host W) where
  unfoldable pub rename_patch : PatchName → PatchName → M W (Unit {0})
  unfolding reports_collision rename_in_lists renamed_patch
  rename_patch old_patchname new_patchname = if new_patchname == old_patchname then pure tt else do
    self ← get
    if reports_collision self old_patchname new_patchname
        then raise (bail (codes "collides"))
        else if not (stack_access.has_patch self.stack old_patchname)
        then raise (bail (codes "does not exist"))
        else do
          self' ← unwrap (rename_in_lists self old_patchname new_patchname)
          patch_state ← unwrap (renamed_patch self' old_patchname)
          put (rename_updates self' old_patchname new_patchname patch_state)
          print host (renamed old_patchname new_patchname)

-- `IndexSet::from_iter`: the first of equal names stays.
unfoldable pub index_set_onto : List PatchName → List PatchName → List PatchName
index_set_onto acc [] = acc
index_set_onto acc (pn ∷ pns) = index_set_onto (if contains acc pn then acc else acc ++ pn ∷ []) pns

abbrev pub index_set : List PatchName → List PatchName
index_set = index_set_onto []

-- `old.shift_take(pn).expect(…)` for each name; what is left.
unfoldable pub shift_take_all : List PatchName → List PatchName → Option (List PatchName)
shift_take_all [] old = some old
shift_take_all (pn ∷ pns) old =
    let rest = shift_take_all pns (filter (λ x. not (x == pn)) old) in
    if contains old pn then rest else none

module _ {W : Type 0} where
  unfoldable pub repair_appliedness :
      List PatchName → List PatchName → List PatchName → M W (Unit {0})
  repair_appliedness applied unapplied hidden = do
    self ← get
    let old = index_set (all_patches self)
    put (record self { applied = applied; unapplied = unapplied; hidden = hidden })
    left ← unwrap (shift_take_all (applied ++ (unapplied ++ hidden)) old)
    assert (is_empty left)
