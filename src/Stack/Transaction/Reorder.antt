-- ===== src/Stack/Transaction/Reorder.antt =====
-- src/stack/transaction/mod.rs: the methods of `StackTransaction` that pop and push to reach an
-- order: `reorder_patches`, `hide_patches`, `unhide_patches`, `commit_patches`, and the resets to an
-- earlier state.
pub mod Prefix
pub mod Applied
pub mod Whole
pub mod Hidden
use stgit.Prelude.{
  ℕ, zero, suc, ◌+◌, Bool, true, false, not, ◌&&◌, ◌||◌, List, [], ◌∷◌, ◌++◌, Option, none, some,
  Map, lookup, insert, contains, contains_key, filter, drop, length, is_empty, get_last?, head?,
  ltb, ◌==◌, if◌then◌else◌, text_Eq, nat_eq,
}
use stgit.Exec.{Error, panic, pure, ◌>>=◌, ◌>>◌}
use stgit.Host.{Commit, unmodified, Host, committed, hid, unhid, pushed, updated}
use stgit.Patch.Name.{PatchName}
use stgit.Stack.Access.{PatchState, all_patches}
use stgit.Stack.State.{StackState, state_access}
use stgit.Stack.Transaction.Defs.{
  StackTransaction, transaction_access, has_patch, get_patch, M, get, put, print, unwrap, assert,
}
use stgit.Stack.Transaction.Lists.{with_updated, pop_patches, delete_patches}
use stgit.Stack.Transaction.Lists.Delete.{mark_all}
use stgit.Stack.Transaction.Merge.{get_parent_commit}
use stgit.Stack.Transaction.Push.{push_patches}

-- `xs.iter().zip(ys).take_while(|(x, y)| x == y).count()`
unfoldable pub common_prefix : List PatchName → List PatchName → ℕ
common_prefix (x ∷ xs) (y ∷ ys) = let rest = common_prefix xs ys in if x == y then suc rest else 0
common_prefix _ _ = 0

-- Equality of two lists of names, for `assert_eq!`.
unfoldable pub names_eq : List PatchName → List PatchName → Bool
names_eq [] [] = true
names_eq (x ∷ xs) (y ∷ ys) = x == y && names_eq xs ys
names_eq _ _ = false

module _ {W : Type 0} (host : Host W) where
  -- The part of `reorder_patches` for a list of applied patches that is provided.
  unfoldable pub reorder_applied : List PatchName → M W (Unit {0})
  unfolding names_eq
  reorder_applied applied = do
    self ← get
    let num_common = common_prefix self.applied applied
    let to_pop = drop num_common self.applied
    pop_patches host (λ pn. contains to_pop pn)
    let to_push = drop num_common applied
    push_patches host to_push false
    self' ← get
    assert (names_eq self'.applied applied)
    if is_empty to_push
        then elim (get_last? applied) [
          | some last ↦ print host (pushed last unmodified true)
          | none ↦ pure tt
        ]
        else pure tt

  unfoldable pub reorder_patches :
      Option (List PatchName) → Option (List PatchName) → Option (List PatchName) → M W (Unit {0})
  reorder_patches applied unapplied hidden = do
    elim applied [ some applied' ↦ reorder_applied applied' | none ↦ pure tt ]
    self ← get
    put (elim unapplied [ some unapplied' ↦ record self { unapplied = unapplied' } | none ↦ self ])
    self' ← get
    put (elim hidden [ some hidden' ↦ record self' { hidden = hidden' } | none ↦ self' ])

  unfoldable pub hide_patches : List PatchName → M W (Unit {0})
  hide_patches to_hide = do
    self ← get
    let applied = filter (λ pn. not (contains to_hide pn)) self.applied
    let unapplied = filter (λ pn. not (contains to_hide pn)) self.unapplied
    let hidden = to_hide ++ self.hidden
    reorder_patches (some applied) (some unapplied) (some hidden)
    print host (hid to_hide)

  unfoldable pub unhide_patches : List PatchName → M W (Unit {0})
  unhide_patches to_unhide = do
    self ← get
    let unapplied = self.unapplied ++ to_unhide
    let hidden = filter (λ pn. not (contains to_unhide pn)) self.hidden
    reorder_patches none (some unapplied) (some hidden)
    print host (unhid to_unhide)

  -- The pops and pushes of `commit_patches` that bring the patches to the bottom; the applied
  -- patches that have to be pushed again.
  unfoldable pub bring_to_bottom : List PatchName → M W (List PatchName)
  bring_to_bottom to_commit = do
    self ← get
    let num_common = common_prefix self.applied to_commit
    if ltb num_common (length to_commit)
        then (do
          let to_push = filter (λ pn. not (contains to_commit pn)) (drop num_common self.applied)
          pop_patches host (λ pn. contains to_push pn)
          push_patches host (drop num_common to_commit) false
          pure to_push)
        else pure []

  unfoldable pub commit_patches : List PatchName → M W (Unit {0})
  unfolding bring_to_bottom
  commit_patches to_commit = do
    to_push ← bring_to_bottom to_commit
    print host (committed to_commit)
    self ← get
    last ← unwrap (get_last? to_commit)
    patch ← unwrap (get_patch self last)
    assert (not (ltb (length self.applied) (length to_commit)))
    put (record self {
      updated_base = some patch.commit;
      updated_patches = mark_all to_commit self.updated_patches;
      applied = drop (length to_commit) self.applied;
    })
    push_patches host to_push false

-- `for (pn, patch_state) in patches { self.updated_patches.insert(pn, Some(patch_state)); }`
unfoldable pub insert_all :
    Map PatchName PatchState → Map PatchName (Option PatchState) → Map PatchName (Option PatchState)
insert_all [] m = m
insert_all ((pn, patch) ∷ patches) m = insert_all patches (insert pn (some patch) m)

module _ {W : Type 0} (host : Host W) where
  -- The base of the stack that a reset leaves.
  base_of : StackState → M W Commit
  base_of state = elim (head? state.applied) [
    | some pn ↦ do patch ← unwrap (lookup pn state.patches); get_parent_commit host patch.commit
    | none ↦ pure state.head
  ]

  unfoldable pub reset_to_state : StackState → M W (Unit {0})
  unfolding base_of insert_all
  reset_to_state state = do
    self ← get
    put (record self { updated_patches = mark_all (all_patches self) self.updated_patches })
    new_base ← base_of state
    self' ← get
    put (record self' {
      updated_base = some new_base;
      updated_head = some state.head;
      updated_patches = insert_all state.patches self'.updated_patches;
      applied = state.applied;
      unapplied = state.unapplied;
      hidden = state.hidden;
    })
