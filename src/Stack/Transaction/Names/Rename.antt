-- ===== src/Stack/Transaction/Names/Rename.antt =====
-- What `rename_patch` of src/stack/transaction/mod.rs does.
use stgit.Prelude.{
  true, false, not, ◌≡◌, refl, sym, ap, arith, Option, none, some, lookup, insert, remove,
  lookup-insert, lookup-remove, if◌then◌else◌, ◌==◌, text_Eq, text_eq_iff, position, set, map,
  count, count-position-none, Option-cases, inl, inr,
}
use stgit.Exec.{bail, ok, err}
use stgit.Host.{Host}
use stgit.Stack.State.{stack_access}
use stgit.Stack.Transaction.Ends.{
  Post, Ends, Ends-get, Ends-put, Ends-raise, Ends-last, Ends-unwrap, Ends-unwrap-some,
}
use stgit.Stack.Transaction.Push.Merging.{if-Ends}
use stgit.Patch.Name.{PatchName}
use stgit.Stack.Transaction.Defs.{StackTransaction, has_patch, get_patch, transaction_access}
use stgit.Stack.Access.{PatchState}
use stgit.Stack.Transaction.Consistent.{IsConsistent, count_all}
use stgit.Stack.Transaction.Names.{
  rename_in_lists, renamed_patch, rename_updates, reports_collision, rename_patch,
}
use stgit.Stack.Transaction.Names.Substitution.{
  renamed_as, map-absent, set-map, position-some-count, count-renamed,
}
use stgit.Stack.Transaction.Push.Outcome.{has_patch-get_patch}

-- The old name is replaced where it stands, and nothing else is changed.
pub record RenamedIn (old new : PatchName) (t u : StackTransaction) : Type 0 where
  pub stack : u.stack ≡ t.stack
  pub updated : u.updated_patches ≡ t.updated_patches
  pub applied_eq : u.applied ≡ map (renamed_as old new) t.applied
  pub unapplied_eq : u.unapplied ≡ map (renamed_as old new) t.unapplied
  pub hidden_eq : u.hidden ≡ map (renamed_as old new) t.hidden

rename_in_lists-RenamedIn :
    (old new : PatchName) (t : StackTransaction)
    → IsConsistent t
    → has_patch t old ≡ true
    → (u : StackTransaction) × (rename_in_lists t old new ≡ some u) × RenamedIn old new t u
unfolding rename_in_lists
rename_in_lists-RenamedIn old new t c known =
    let once = c.counted old in
    let total = count_all old t in
    elim (Option-cases (position (λ pn. pn == old) t.applied)) [
      | inr (i, e) ↦
          let here = position-some-count old t.applied i e in
          (
            record t { applied = set t.applied i new },
            rw (e, rename_in_lists) refl,
            record {
              stack = refl;
              updated = refl;
              applied_eq = set-map old new t.applied i (ground arith) e;
              unapplied_eq = sym (map-absent old new t.unapplied (ground arith));
              hidden_eq = sym (map-absent old new t.hidden (ground arith));
            },
          )
      | inl e ↦
          let not_applied = count-position-none old t.applied e in
          elim (Option-cases (position (λ pn. pn == old) t.unapplied)) [
            | inr (i, e') ↦
                let here = position-some-count old t.unapplied i e' in
                (
                  record t { unapplied = set t.unapplied i new },
                  rw (e, e', rename_in_lists) refl,
                  record {
                    stack = refl;
                    updated = refl;
                    applied_eq = sym (map-absent old new t.applied not_applied);
                    unapplied_eq = set-map old new t.unapplied i (ground arith) e';
                    hidden_eq = sym (map-absent old new t.hidden (ground arith));
                  },
                )
            | inl e' ↦
                let not_unapplied = count-position-none old t.unapplied e' in
                elim (Option-cases (position (λ pn. pn == old) t.hidden)) [
                  | inr (i, e'') ↦ (
                    record t { hidden = set t.hidden i new },
                    rw (e, e', e'', rename_in_lists) refl,
                    record {
                      stack = refl;
                      updated = refl;
                      applied_eq = sym (map-absent old new t.applied not_applied);
                      unapplied_eq = sym (map-absent old new t.unapplied not_unapplied);
                      hidden_eq = set-map old new t.hidden i (ground arith) e'';
                    },
                  )
                  | inl e'' ↦ let not_hidden = count-position-none old t.hidden e'' in ground arith
                ]
          ]
    ]

renamed_patch-get_patch :
    (t : StackTransaction) (old : PatchName)
    → has_patch t old ≡ true
    → renamed_patch t old ≡ get_patch t old
unfolding renamed_patch get_patch has_patch
renamed_patch-get_patch t old known = ground arith

get_patch-renamed :
    (t : StackTransaction) (old new a : PatchName) (patch : PatchState)
    → get_patch (rename_updates t old new patch) a
      ≡ (if new == a then some patch else if old == a then none else get_patch t a)
unfolding get_patch
get_patch-renamed t old new a patch = ground (
  arith,
  lookup-insert new a (some patch) (insert old none (remove old t.updated_patches)),
  lookup-insert {V = Option PatchState} old a none (remove old t.updated_patches),
  lookup-remove old a t.updated_patches,
)

RenamedIn-get_patch :
    (old new : PatchName) {t : StackTransaction} (u : StackTransaction)
    → RenamedIn old new t u
    → (a : PatchName) → get_patch u a ≡ get_patch t a
unfolding get_patch
RenamedIn-get_patch old new {t} u r a =
    ground (arith, ap (lookup a) r.updated, ap (λ s. lookup a s.state.patches) r.stack)

RenamedIn-renamed_patch :
    (old new : PatchName) {t : StackTransaction} (u : StackTransaction)
    → RenamedIn old new t u
    → renamed_patch u old ≡ renamed_patch t old
unfolding renamed_patch
RenamedIn-renamed_patch old new {t} u r =
    ground (arith, ap (lookup old) r.updated, ap (λ s. lookup old s.state.patches) r.stack)

-- The new name stands where the old one did and has its patch; every other patch stays.
pub record Renamed (old new : PatchName) (t u : StackTransaction) : Type 0 where
  pub stack : u.stack ≡ t.stack
  pub applied_eq : u.applied ≡ map (renamed_as old new) t.applied
  pub unapplied_eq : u.unapplied ≡ map (renamed_as old new) t.unapplied
  pub hidden_eq : u.hidden ≡ map (renamed_as old new) t.hidden
  pub patch_eq : get_patch u new ≡ get_patch t old
  pub old_gone : has_patch u old ≡ false
  pub others :
      (a : PatchName) → (new == a) ≡ false → (old == a) ≡ false → get_patch u a ≡ get_patch t a
  pub consistent : IsConsistent u

-- An error that the method raises itself leaves the transaction as it was; it does not panic.
abbrev pub Renames : PatchName → PatchName → StackTransaction → Post (Unit {0})
Renames old new t (ok done) u = Renamed old new t u
Renames old new t (err (bail message)) u = u ≡ t
Renames old new t (err e) u = ⊥

RenamedIn-Renamed :
    (old new : PatchName) {t u : StackTransaction} (patch : PatchState)
    → (new == old) ≡ false
    → IsConsistent t
    → has_patch t new ≡ false
    → get_patch t old ≡ some patch
    → RenamedIn old new t u
    → ((a : PatchName) → get_patch u a ≡ get_patch t a)
    → Renamed old new t (rename_updates u old new patch)
RenamedIn-Renamed old new {t} {u} patch distinct c fresh e r same =
    let v = rename_updates u old new patch in
    record {
      stack = r.stack;
      applied_eq = r.applied_eq;
      unapplied_eq = r.unapplied_eq;
      hidden_eq = r.hidden_eq;
      patch_eq = ground (arith, e, get_patch-renamed u old new new patch, text_eq_iff new new);
      old_gone = ground (
        arith,
        has_patch-get_patch v old,
        get_patch-renamed u old new old patch,
        text_eq_iff old old,
      );
      others = λ a n o. ground (arith, same a, get_patch-renamed u old new a patch);
      consistent = record {
        counted = λ a. ground (
          arith,
          c.counted a,
          c.counted old,
          c.counted new,
          count_all a t,
          count_all old t,
          count_all new t,
          fresh,
          e,
          same a,
          has_patch-get_patch t a,
          has_patch-get_patch t old,
          has_patch-get_patch v a,
          get_patch-renamed u old new a patch,
          count_all a v,
          ap (count a) r.applied_eq,
          ap (count a) r.unapplied_eq,
          ap (count a) r.hidden_eq,
          count-renamed a old new t.applied distinct,
          count-renamed a old new t.unapplied distinct,
          count-renamed a old new t.hidden distinct,
          text_eq_iff new a,
          text_eq_iff old a,
        );
      };
    }

module _ {W : Type 0} (host : Host W) where
  -- From a consistent transaction, where the two names differ, the old one is a patch and the new
  -- one is not, `rename_patch` never panics. If it returns, the three lists are the old ones with
  -- the new name in place of the old one, the new name has the old one's patch, the old name is no
  -- patch any more, every other patch is as before, and the transaction is consistent. Where it
  -- raises an error itself, the transaction is unchanged.
  pub rename_patch-Renames :
      (old new : PatchName) (t : StackTransaction)
      → IsConsistent t
      → (new == old) ≡ false
      → has_patch t old ≡ true
      → has_patch t new ≡ false
      → Ends (rename_patch host old new) t (Renames old new t)
  unfolding rename_patch
  rename_patch-Renames old new t c distinct known fresh =
      let (u, found, r) = rename_in_lists-RenamedIn old new t c known in
      let patch_of = renamed_patch-get_patch t old known in
      rw (distinct, rename_patch)
        (Ends-get _ _ (
          if-Ends (reports_collision t old new) (Ends-raise _ _ refl) (
            if-Ends (not (stack_access.has_patch t.stack old)) (Ends-raise _ _ refl) (
              Ends-unwrap-some _ _ _ u found (
                Ends-unwrap _ _ _
                  (λ patch e.
                    let from : get_patch t old ≡ some patch =
                      cc (e, patch_of, RenamedIn-renamed_patch old new u r) in
                    Ends-put _ _ _ (
                      Ends-last _ _ (λ _.
                        RenamedIn-Renamed old new patch distinct c fresh from r
                          (RenamedIn-get_patch old new u r))))
                  (λ e.
                    let none_there : get_patch t old ≡ none =
                      cc (e, patch_of, RenamedIn-renamed_patch old new u r) in
                    ground (arith, known, none_there, has_patch-get_patch t old)))))))
