-- ===== src/Stack/Transaction/Lists.antt =====
-- src/stack/transaction/mod.rs: the methods of `StackTransaction` that move, add, rename and delete
-- names in the lists of patches, without a merge.
pub mod Pop
pub mod Delete
use stgit.Prelude.{
  ℕ, zero, suc, ◌+◌, Bool, true, false, not, ◌&&◌, List, [], ◌∷◌, ◌++◌, Option, none, some, Map,
  lookup, insert, remove, contains_key, contains, position, filter, take, drop, length, get_elem?,
  erase_idx, insert_idx, set, is_empty, ◌==◌, if◌then◌else◌, text_Eq, nat_eq, head?,
}
use stgit.Exec.{Error, bail, panic, pure, raise, ◌>>=◌, ◌>>◌}
use stgit.Host.{
  ObjectId, Commit, Event, PushStatus, Host, popped, deleted, committed, uncommitted, renamed,
  pushed, updated,
}
use stgit.Patch.Name.{PatchName}
use stgit.Stack.Access.{PatchState, all_patches, colliding}
use stgit.Stack.State.{stack_access}
use stgit.Stack.Transaction.Defs.{
  StackTransaction, transaction_access, M, get, put, call, print, unwrap, top, get_patch,
}

-- `if let Some(pos) = xs.iter().position(p) { xs.split_off(pos) } else { vec![] }`: what stays in
-- `xs`, and what is split off.
unfoldable pub split_off_first :
    (PatchName → Bool) → List PatchName → List PatchName × List PatchName
split_off_first p xs = elim (position p xs) [
  | some pos ↦ (take pos xs, drop pos xs)
  | none ↦ (xs, [])
]

-- `self.updated_patches.insert(patchname, value)`
abbrev pub with_updated : StackTransaction → PatchName → Option PatchState → StackTransaction
with_updated self patchname value = record self {
  updated_patches = insert patchname value self.updated_patches;
}

-- The transaction behind `pop_patches`.
abbrev pub popped_state : (PatchName → Bool) → StackTransaction → StackTransaction
popped_state should_pop self =
    let kept = (split_off_first should_pop self.applied).0 in
    let all_popped = (split_off_first should_pop self.applied).1 in
    record self {
      applied = kept;
      unapplied =
          filter (λ pn. not (should_pop pn)) all_popped
          ++ (filter should_pop all_popped ++ self.unapplied);
    }

module _ {W : Type 0} (host : Host W) where
  unfoldable pub pop_patches : (PatchName → Bool) → M W (List PatchName)
  pop_patches should_pop = do
    self ← get
    let all_popped = (split_off_first should_pop self.applied).1
    let incidental = filter (λ pn. not (should_pop pn)) all_popped
    put (popped_state should_pop self)
    print host (popped all_popped)
    pure incidental

  -- `self.updated_patches.insert(patchname, None)` of a deleted patch.
  mark_deleted : PatchName → M W (Unit {0})
  mark_deleted patchname = do self ← get; put (with_updated self patchname none)

  -- `print_deleted(&deleted_group)?; deleted_group.clear()`
  flush_deleted : List PatchName → M W (List PatchName)
  flush_deleted deleted_group = do print host (deleted deleted_group); pure []

  -- One round of the loop over the popped patches.
  delete_popped_round : (PatchName → Bool) → PatchName → List PatchName → M W (List PatchName)
  delete_popped_round should_delete patchname deleted_group =
      if should_delete patchname
      then (do mark_deleted patchname; pure (deleted_group ++ patchname ∷ []))
      else if not (is_empty deleted_group)
      then flush_deleted deleted_group
      else pure deleted_group

  delete_popped : (PatchName → Bool) → List PatchName → List PatchName → M W (List PatchName)
  delete_popped should_delete [] deleted_group = pure deleted_group
  delete_popped should_delete (patchname ∷ rest) deleted_group = do
    deleted_group' ← delete_popped_round should_delete patchname deleted_group
    delete_popped should_delete rest deleted_group'

  -- One round of the loop over the unapplied patches.
  delete_unapplied_round : (PatchName → Bool) → PatchName → List PatchName → M W (List PatchName)
  delete_unapplied_round should_delete patchname deleted_group =
      if should_delete patchname
      then (do mark_deleted patchname; pure (deleted_group ++ patchname ∷ []))
      else do
        deleted_group' ← flush_deleted deleted_group
        self ← get
        put (record self { unapplied = self.unapplied ++ patchname ∷ [] })
        pure deleted_group'

  delete_unapplied : (PatchName → Bool) → List PatchName → List PatchName → M W (List PatchName)
  delete_unapplied should_delete [] deleted_group = pure deleted_group
  delete_unapplied should_delete (patchname ∷ rest) deleted_group = do
    deleted_group' ← delete_unapplied_round should_delete patchname deleted_group
    delete_unapplied should_delete rest deleted_group'

  -- One round of `while i < self.hidden.len()`, at the hidden patch of index `i`: the next index
  -- and the group.
  delete_hidden_round :
      (PatchName → Bool) → ℕ → PatchName → List PatchName → M W (ℕ × List PatchName)
  delete_hidden_round should_delete i patchname deleted_group =
      if should_delete patchname
      then (do
        self ← get
        put (record self { hidden = erase_idx self.hidden i })
        mark_deleted patchname
        pure (i, deleted_group ++ patchname ∷ []))
      else do deleted_group' ← flush_deleted deleted_group; pure (i + 1, deleted_group')

  -- The loop, with as many rounds as there are hidden patches from `i` on.
  delete_hidden : (PatchName → Bool) → ℕ → ℕ → List PatchName → M W (List PatchName)
  delete_hidden should_delete zero i deleted_group = pure deleted_group
  delete_hidden should_delete (suc rounds) i deleted_group = do
    self ← get
    patchname ← unwrap (get_elem? self.hidden i)
    next ← delete_hidden_round should_delete i patchname deleted_group
    delete_hidden should_delete rounds next.0 next.1

  unfoldable pub delete_patches : (PatchName → Bool) → M W (List PatchName)
  unfolding delete_popped delete_popped_round delete_unapplied delete_unapplied_round delete_hidden
      delete_hidden_round mark_deleted flush_deleted
  delete_patches should_delete = do
    self ← get
    let kept = (split_off_first should_delete self.applied).0
    let all_popped = (split_off_first should_delete self.applied).1
    let incidental = filter (λ pn. not (should_delete pn)) all_popped
    let unapplied = self.unapplied
    put (record self { applied = kept; unapplied = incidental })
    print host (popped all_popped)
    deleted_group ← delete_popped should_delete all_popped []
    deleted_group' ← delete_unapplied should_delete unapplied deleted_group
    self' ← get
    deleted_group'' ← delete_hidden should_delete (length self'.hidden) 0 deleted_group'
    if not (is_empty deleted_group'') then print host (deleted deleted_group'') else pure tt
    pure incidental
