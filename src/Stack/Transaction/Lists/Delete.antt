-- ===== src/Stack/Transaction/Lists/Delete.antt =====
-- What `delete_patches` of src/stack/transaction/mod.rs does.
use stgit.Prelude.{
  ℕ, ◌+◌, Bool, not, List, [], ◌∷◌, ◌++◌, ◌≡◌, refl, ap, inl, inr, filter, length, length-append,
  get_elem?, Bool-cases, Option, none, some, Map, insert, text_Eq, append_assoc, append-nil, arith,
  is_empty, erase_idx,
}
use stgit.Exec.{ok, ◌>>=◌, pure}
use stgit.Host.{Host, deleted}
use stgit.Patch.Name.{PatchName}
use stgit.Stack.Access.{PatchState}
use stgit.Stack.Transaction.Defs.{StackTransaction, M, print}
use stgit.Stack.Transaction.Ends.{
  Post, Ends, Exactly, Returns, Ends-get, Ends-put, Ends-call, Ends-pure, Ends-returns,
  Ends-put_last, Ends-last, Ends-unwrap-some, Ends-if, Ends-exactly, Ends-forget,
}
use stgit.Stack.Transaction.Lists.{
  split_off_first, with_updated, delete_patches, delete_popped, delete_popped_round,
  delete_unapplied, delete_unapplied_round, delete_hidden, delete_hidden_round, mark_deleted,
  flush_deleted,
}

-- The updates that mark every name of the list as deleted.
abbrev pub mark_all :
    List PatchName → Map PatchName (Option PatchState) → Map PatchName (Option PatchState)
mark_all [] m = m
mark_all (pn ∷ pns) m = mark_all pns (insert pn none m)

mark_all-cons :
    (p : PatchName → Bool) (pn : PatchName) (pns : List PatchName)
    (m : Map PatchName (Option PatchState))
    → mark_all (filter p pns) (mark_all (filter p (pn ∷ [])) m) ≡ mark_all (filter p (pn ∷ pns)) m
mark_all-cons p pn pns m = elim (Bool-cases (p pn)) [ inl h ↦ rw h refl | inr h ↦ rw h refl ]

append-filter_cons :
    (p : PatchName → Bool) (xs : List PatchName) (pn : PatchName) (pns : List PatchName)
    → (xs ++ filter p (pn ∷ [])) ++ filter p pns ≡ xs ++ filter p (pn ∷ pns)
append-filter_cons p xs pn pns = elim (Bool-cases (p pn)) [
  | inl h ↦ rw h (append_assoc xs (pn ∷ []) (filter p pns))
  | inr h ↦ rw (h, append-nil) refl
]

get_elem?-append :
    (xs : List PatchName) (x : PatchName) (ys : List PatchName)
    → get_elem? (xs ++ x ∷ ys) (length xs) ≡ some x
get_elem?-append [] x ys = refl
get_elem?-append (z ∷ xs) x ys = get_elem?-append xs x ys

erase_idx-append :
    (xs : List PatchName) (x : PatchName) (ys : List PatchName)
    → erase_idx (xs ++ x ∷ ys) (length xs) ≡ xs ++ ys
erase_idx-append [] x ys = refl
erase_idx-append (z ∷ xs) x ys = ap (◌∷◌ z) (erase_idx-append xs x ys)

length-concat : (xs : List PatchName) (x : PatchName) → length xs + 1 ≡ length (xs ++ x ∷ [])
length-concat xs x = omega (arith, length-append xs (x ∷ []))

module _ {W : Type 0} (host : Host W) (p : PatchName → Bool) where
  mark_deleted-Ends :
      (pn : PatchName) (t : StackTransaction)
      → Ends (mark_deleted host pn) t (Exactly (ok tt) (with_updated t pn none))
  unfolding mark_deleted
  mark_deleted-Ends pn t = Ends-get _ _ (Ends-put_last _)

  flush_deleted-Ends :
      (group : List PatchName) (t : StackTransaction)
      → Ends (flush_deleted host group) t (Exactly (ok []) t)
  unfolding flush_deleted
  flush_deleted-Ends group t = Ends-call _ _ _ (λ _. Ends-pure _ _ (refl, refl))

  popped_round-Ends :
      (pn : PatchName) (group : List PatchName) (t : StackTransaction)
      → Ends
          (delete_popped_round host p pn group)
          t
          (Returns (record t { updated_patches = mark_all (filter p (pn ∷ [])) t.updated_patches }))
  unfolding delete_popped_round
  popped_round-Ends pn group t = elim (Bool-cases (p pn)) [
    | inl h ↦ rw h (Ends-exactly _ _ _ _ _ (mark_deleted-Ends pn t) (Ends-pure _ _ (refl, tt)))
    | inr h ↦ rw h (
        Ends-if _ (not (is_empty group)) (flush_deleted host group) (pure group)
          (λ _. Ends-forget _ _ (flush_deleted-Ends group t)) (λ _. Ends-pure _ _ (refl, tt)))
  ]

  popped-Ends :
      (pns group : List PatchName) (t : StackTransaction)
      → Ends
          (delete_popped host p pns group)
          t
          (Returns (record t { updated_patches = mark_all (filter p pns) t.updated_patches }))
  unfolding delete_popped
  popped-Ends [] group t = Ends-pure _ _ (refl, tt)
  popped-Ends (pn ∷ pns) group t =
      Ends-returns _ _ _ (popped_round-Ends pn group t)
        (λ g. rw (← mark_all-cons p pn pns t.updated_patches) (popped-Ends pns g _))

  unapplied_round-Ends :
      (pn : PatchName) (group : List PatchName) (t : StackTransaction)
      → Ends (delete_unapplied_round host p pn group) t (
          Returns (record t {
            unapplied = t.unapplied ++ filter (λ x. not (p x)) (pn ∷ []);
            updated_patches = mark_all (filter p (pn ∷ [])) t.updated_patches;
          }))
  unfolding delete_unapplied_round
  unapplied_round-Ends pn group t = elim (Bool-cases (p pn)) [
    | inl h ↦
        rw (h, append-nil)
          (Ends-exactly _ _ _ _ _ (mark_deleted-Ends pn t) (Ends-pure _ _ (refl, tt)))
    | inr h ↦ rw h (
        Ends-exactly _ _ _ _ _ (flush_deleted-Ends group t)
          (Ends-get _ _ (Ends-put _ _ _ (Ends-pure _ _ (refl, tt)))))
  ]

  unapplied-Ends :
      (pns group : List PatchName) (t : StackTransaction)
      → Ends (delete_unapplied host p pns group) t (
          Returns (record t {
            unapplied = t.unapplied ++ filter (λ x. not (p x)) pns;
            updated_patches = mark_all (filter p pns) t.updated_patches;
          }))
  unfolding delete_unapplied
  unapplied-Ends [] group t = rw append-nil (Ends-pure _ _ (refl, tt))
  unapplied-Ends (pn ∷ pns) group t = Ends-returns _ _ _ (unapplied_round-Ends pn group t) (λ g.
      rw
        (
          ← mark_all-cons p pn pns t.updated_patches,
          ← append-filter_cons (λ x. not (p x)) t.unapplied pn pns,
        )
        (unapplied-Ends pns g _))

  -- The hidden patches before the index are kept; the loop treats those from the index on.
  hidden_round-Ends :
      (pn : PatchName) (kept rest group : List PatchName) (t : StackTransaction)
      (Q : Post (List PatchName)) (f : ℕ × List PatchName → M W (List PatchName))
      → ((g : List PatchName)
          → Ends
              (f (length (kept ++ filter (λ x. not (p x)) (pn ∷ [])), g))
              (record t {
                hidden = (kept ++ filter (λ x. not (p x)) (pn ∷ [])) ++ rest;
                updated_patches = mark_all (filter p (pn ∷ [])) t.updated_patches;
              })
              Q)
      → Ends
          (delete_hidden_round host p (length kept) pn group >>= f)
          (record t { hidden = kept ++ pn ∷ rest })
          Q
  unfolding delete_hidden_round
  hidden_round-Ends pn kept rest group t Q f = elim (Bool-cases (p pn)) [
    | inl h ↦
        rw (h, append-nil)
          λ k.
            Ends-exactly _ _ _ _ _
              (Ends-get _ _ (
                Ends-put _ _ _
                  (Ends-exactly _ _ _ _ _ (mark_deleted-Ends pn _) (Ends-pure _ _ (refl, refl)))))
              (rw erase_idx-append (k _))
    | inr h ↦ rw h λ k.
        Ends-exactly _ _ _ _ _
          (Ends-exactly _ _ _ _ _ (flush_deleted-Ends group _) (Ends-pure _ _ (refl, refl)))
          (rw (length-concat kept pn, ← append_assoc kept (pn ∷ []) rest) (k []))
  ]

  hidden-Ends :
      (rest kept group : List PatchName) (t : StackTransaction)
      → Ends
          (delete_hidden host p (length rest) (length kept) group)
          (record t { hidden = kept ++ rest })
          (Returns (record t {
            hidden = kept ++ filter (λ x. not (p x)) rest;
            updated_patches = mark_all (filter p rest) t.updated_patches;
          }))
  unfolding delete_hidden
  hidden-Ends [] kept group t = Ends-pure _ _ (refl, tt)
  hidden-Ends (pn ∷ rest) kept group t = Ends-get _ _ (
      Ends-unwrap-some _ _ _ pn (get_elem?-append kept pn rest) (
        hidden_round-Ends pn kept rest group t _ _ (λ g.
          rw
            (
              ← mark_all-cons p pn rest t.updated_patches,
              ← append-filter_cons (λ x. not (p x)) kept pn rest,
            )
            (hidden-Ends rest _ g
              (record t { updated_patches = mark_all (filter p (pn ∷ [])) t.updated_patches })))))

-- The transaction behind `delete_patches`.
abbrev pub deleted_state : (PatchName → Bool) → StackTransaction → StackTransaction
deleted_state should_delete self =
    let kept = (split_off_first should_delete self.applied).0 in
    let all_popped = (split_off_first should_delete self.applied).1 in
    record self {
      applied = kept;
      unapplied =
          filter (λ pn. not (should_delete pn)) all_popped
          ++ filter (λ pn. not (should_delete pn)) self.unapplied;
      hidden = filter (λ pn. not (should_delete pn)) self.hidden;
      updated_patches = mark_all (filter should_delete self.hidden) (
          mark_all (filter should_delete self.unapplied)
            (mark_all (filter should_delete all_popped) self.updated_patches));
    }

pub delete_patches-Ends :
    {W : Type 0} (host : Host W) (should_delete : PatchName → Bool) (t : StackTransaction)
    → Ends (delete_patches host should_delete) t (
        Exactly
          (ok (filter (λ pn. not (should_delete pn)) (split_off_first should_delete t.applied).1))
          (deleted_state should_delete t))
unfolding delete_patches
delete_patches-Ends host p t =
    let before_hidden = record (deleted_state p t) {
      updated_patches =
          mark_all (filter p t.unapplied)
            (mark_all (filter p (split_off_first p t.applied).1) t.updated_patches);
    } in
    Ends-get _ _ (
      Ends-put _ _ _ (
        Ends-call _ _ _ (λ _. Ends-returns _ _ _ (popped-Ends host p _ [] _) (λ g.
          Ends-returns _ _ _ (unapplied-Ends host p t.unapplied g _) (λ g'. Ends-get _ _ (
            Ends-returns _ _ _ (hidden-Ends host p t.hidden [] g' before_hidden) (λ g''.
              Ends-returns _ _ _
                (Ends-if _ (not (is_empty g'')) (print host (deleted g'')) (pure tt)
                  (λ _. Ends-last _ _ (λ _. (refl, tt))) (λ _. Ends-pure _ _ (refl, tt)))
                (λ _. Ends-pure _ _ (refl, refl)))))))))
