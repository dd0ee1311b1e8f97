-- ===== src/Stack/Commit.antt =====
-- `StackState::commit` of src/stack/state.rs and the methods of src/stack/stack.rs that write the
-- state.
pub mod Parents
pub mod Alive
pub mod Reached
use stgit.Prelude.{
  Text, ℕ, zero, suc, ◌-◌, Bool, true, false, not, List, [], ◌∷◌, ◌++◌, Option, none, some,
  contains, filter, head?, length, take, drop, lookup, leb, if◌then◌else◌, ◌==◌, text_Eq, ℕ_eq,
  codes,
}
use stgit.Exec.{Error, bail, Exec, pure, raise, ◌>>=◌, ◌>>◌}
use stgit.Host.{ObjectId, Signature, Commit, Host}
use stgit.Patch.Name.{PatchName}
use stgit.Stack.Access.{PatchState, all_patches}
use stgit.Stack.State.{StackState, Stack, top, state_access, advance_head, head_top_match}
use stgit.Stack.Transaction.Merge.{config_or}
use stgit.Stack.Repository.{
  Repository, RefEdit, stack_ref, update, existing_must_match, ask, expect,
}

-- `MAX_PARENTS`
abbrev pub max_parents : ℕ
max_parents = 16

-- The default message of `log_external_mods`.
abbrev pub external_mods_message : Text
external_mods_message =
    codes "external modifications\n\nModifications by tools other than StGit (e.g. git).\n"

-- `IndexSet::insert`
unfoldable pub set_insert : List ObjectId → ObjectId → List ObjectId
set_insert ids id = if contains ids id then ids else ids ++ id ∷ []

-- `IndexSet::shift_remove`
unfoldable pub shift_remove : List ObjectId → ObjectId → List ObjectId
shift_remove ids id = filter (λ x. not (x == id)) ids

-- `self.patches[patchname].commit.id`; `none` is a panic.
unfoldable pub patch_commit_id : StackState → PatchName → Option ObjectId
patch_commit_id state patchname = elim (lookup patchname state.patches) [
  | none ↦ none
  | some patch ↦ some patch.commit.id
]

-- The commits of the patches are inserted, or removed.
unfoldable pub insert_patches : StackState → List PatchName → List ObjectId → Option (List ObjectId)
insert_patches state [] ids = some ids
insert_patches state (pn ∷ pns) ids = elim (patch_commit_id state pn) [
  | none ↦ none
  | some id ↦ insert_patches state pns (set_insert ids id)
]

unfoldable pub remove_patches : StackState → List PatchName → List ObjectId → Option (List ObjectId)
remove_patches state [] ids = some ids
remove_patches state (pn ∷ pns) ids = elim (patch_commit_id state pn) [
  | none ↦ none
  | some id ↦ remove_patches state pns (shift_remove ids id)
]

module _ {W : Type 0} (repo : Repository W) where
  -- The set of the parents that keep the patches' commits alive.
  unfoldable pub parent_set : StackState → Option StackState → Exec W (List ObjectId)
  unfolding insert_patches remove_patches set_insert
  parent_set self prev_state = do
    top_commit ← expect (top self)
    let ids = set_insert (self.head.id ∷ []) top_commit.id
    with_unapplied ← expect (insert_patches self self.unapplied ids)
    with_hidden ← expect (insert_patches self self.hidden with_unapplied)
    elim self.prev [
      | none ↦ pure with_hidden
      | some prev_commit ↦ do
        prev_state' ← expect prev_state
        expect (
            remove_patches prev_state' (all_patches prev_state')
              (set_insert with_hidden prev_commit.id))
    ]

  -- `while parent_oids.len() > MAX_PARENTS`: the last ids become the parents of one commit. Each
  -- round makes the list shorter, so its length is fuel enough.
  unfoldable pub group_parents :
      ℕ → (List ObjectId → Exec W ObjectId) → List ObjectId → Exec W (List ObjectId)
  group_parents zero commit_group parent_oids = pure parent_oids
  group_parents (suc rounds) commit_group parent_oids =
      if leb (length parent_oids) max_parents then pure parent_oids else do
        let kept = length parent_oids - max_parents
        group_oid ← commit_group (drop kept parent_oids)
        group_parents rounds commit_group (take kept parent_oids ++ group_oid ∷ [])

  -- The state of the previous commit, if there is one, and the tree of this state.
  unfoldable pub state_tree : StackState → Exec W (ObjectId × Option StackState)
  state_tree self = elim self.prev [
    | none ↦ do tree ← ask (repo.write_state_tree self none); pure (tree, none)
    | some prev_commit ↦ do
      prev_state ← ask (repo.read_state_tree prev_commit)
      tree ← ask (repo.write_state_tree self (some (prev_state, prev_commit)))
      pure (tree, some prev_state)
  ]

  -- `prev_commit.parent_ids().next().expect(…)`
  unfoldable pub simplified_parents : StackState → Exec W (List ObjectId)
  simplified_parents self = elim self.prev [
    | none ↦ pure []
    | some prev_commit ↦ do parent ← expect (head? prev_commit.parent_ids); pure (parent ∷ [])
  ]

  -- `if let Some(refname) = update_ref`, for the reference of the stack's state.
  unfoldable pub update_reference : Bool → ObjectId → Text → Exec W (Unit {0})
  update_reference true id message = ask (repo.set_stack_reference id message)
  update_reference false id message = pure tt

  unfoldable pub commit : StackState → Bool → Text → Exec W ObjectId
  unfolding parent_set group_parents state_tree simplified_parents update_reference
  commit self update_ref message = do
    (tree, prev_state) ← state_tree self
    committer ← ask repo.host.get_committer
    author ← ask repo.get_author
    simplified ← simplified_parents self
    gpgsign ← λ w. pure (config_or false (repo.host.config_boolean (codes "stgit.gpgsign") w)) w
    simplified_parent_id ←
        ask (repo.commit_with_options author committer message tree simplified gpgsign)
    parent_oids ← parent_set self prev_state
    grouped ←
        group_parents (length parent_oids)
          (λ parents. ask (
            repo.commit_with_options author committer (codes "parent grouping") tree parents
              gpgsign))
          parent_oids
    commit_oid ← ask (
        repo.commit_with_options author committer message tree (simplified_parent_id ∷ grouped)
          gpgsign)
    update_reference update_ref commit_oid message
    pure commit_oid

  unfoldable pub log_external_mods : Stack → Option Text → Exec W Stack
  unfolding commit
  log_external_mods self message = do
    expect (if self.is_initialized then some tt else none)
    prev_state_commit ← ask repo.find_stack_commit
    let state = advance_head self.state self.branch_head prev_state_commit
    state_commit_id ←
        commit state false (elim message [ some text ↦ text | none ↦ external_mods_message ])
    ask (
        repo.edit_references (
          record {
            name = stack_ref;
            change = update (existing_must_match prev_state_commit.id) state_commit_id;
          }
          ∷ []))
    pure (record self { state = state })

  unfoldable pub clear_state_log : Stack → Text → Exec W Stack
  unfolding commit
  clear_state_log self reflog_msg = do
    let state = record self.state { prev = none }
    commit state true reflog_msg
    pure (record self { state = state })

  unfoldable pub check_head_top_mismatch : Stack → Exec W (Unit {0})
  check_head_top_mismatch self =
      if head_top_match self
      then pure tt
      else raise (bail (codes "HEAD and stack top are not the same."))
