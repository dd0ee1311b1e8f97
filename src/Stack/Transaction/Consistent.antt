-- ===== src/Stack/Transaction/Consistent.antt =====
-- The invariant of a transaction: its three lists hold every patch that it has, once.
use stgit.Prelude.{
  ◌+◌, Bool, true, false, not, List, [], ◌∷◌, ◌++◌, ◌≡◌, refl, arith, Option, none, some, Map,
  lookup, insert, lookup-insert, contains, contains-count, contains_key, count, count-nil,
  count-append, count-filter, count-take-drop, filter, one_if, is_some, position, take,
  take-append-drop, append-nil, ap, filter-position-none, filter-take-position, ◌==◌, text_Eq,
  text_eq_iff, if◌then◌else◌, Option-cases, inl, inr,
}
use stgit.Patch.Name.{PatchName}
use stgit.Stack.Access.{PatchState, all_patches}
use stgit.Stack.State.{StackState, state_access}
use stgit.Stack.Transaction.Defs.{StackTransaction, transaction_access, has_patch}
use stgit.Stack.Transaction.Lists.{split_off_first, with_updated, popped_state}
use stgit.Stack.Transaction.Lists.Delete.{mark_all, deleted_state}

-- Every name stands in the lists once if the state has the patch, and nowhere if not.
pub record IsWellFormed (s : StackState) : Type 0 where
  pub counted : (a : PatchName) → count a (all_patches s) ≡ one_if (contains_key s.patches a)

pub record IsConsistent (t : StackTransaction) : Type 0 where
  pub counted : (a : PatchName) → count a (all_patches t) ≡ one_if (has_patch t a)

pub count_all :
    (a : PatchName) (t : StackTransaction)
    → count a (all_patches t) ≡ count a t.applied + (count a t.unapplied + count a t.hidden)
count_all a t =
    omega (
      arith,
      count-append a t.applied (t.unapplied ++ t.hidden),
      count-append a t.unapplied t.hidden,
    )

pub has_patch-with_updated :
    (t : StackTransaction) (k : PatchName) (v : Option PatchState) (a : PatchName)
    → has_patch (with_updated t k v) a ≡ (if k == a then is_some v else has_patch t a)
unfolding has_patch
has_patch-with_updated t k v a = ground (arith, lookup-insert k a v t.updated_patches)

pub lookup-mark_all :
    (pns : List PatchName) (m : Map PatchName (Option PatchState)) (a : PatchName)
    → lookup a (mark_all pns m) ≡ (if contains pns a then some none else lookup a m)
unfolding contains
lookup-mark_all [] m a = refl
lookup-mark_all (pn ∷ pns) m a = ground (
  arith,
  lookup-mark_all pns (insert pn none m) a,
  lookup-insert {V = Option PatchState} pn a none m,
  text_eq_iff a pn,
  text_eq_iff pn a,
)

pub count-split_off_first :
    (a : PatchName) (p : PatchName → Bool) (xs : List PatchName)
    → count a (split_off_first p xs).0 + count a (split_off_first p xs).1 ≡ count a xs
unfolding split_off_first
count-split_off_first a p xs = elim (Option-cases (position p xs)) [
  | inl e ↦ rw (e, split_off_first) (omega (arith, count-nil a))
  | inr (i, e) ↦ rw (e, split_off_first) (count-take-drop a i xs)
]

pub split_off_first-append_eq :
    (p : PatchName → Bool) (xs : List PatchName)
    → (split_off_first p xs).0 ++ (split_off_first p xs).1 ≡ xs
unfolding split_off_first
split_off_first-append_eq p xs = elim (Option-cases (position p xs)) [
  | inl e ↦ rw (e, split_off_first) (append-nil xs)
  | inr (i, e) ↦ rw (e, split_off_first) (take-append-drop i xs)
]

count-filter-not :
    (a : PatchName) (p : PatchName → Bool) (xs : List PatchName)
    → count a (filter (λ x. not (p x)) xs) ≡ (if p a then 0 else count a xs)
count-filter-not a p xs = ground (arith, count-filter a (λ x. not (p x)) xs)

pub popped_state-IsConsistent :
    (p : PatchName → Bool) {t : StackTransaction} → IsConsistent t → IsConsistent (popped_state p t)
unfolding has_patch
popped_state-IsConsistent p {t} c = record {
  counted = λ a. ground (
    arith,
    c.counted a,
    count_all a t,
    count_all a (popped_state p t),
    count-append a (filter (λ x. not (p x)) (split_off_first p t.applied).1)
        (filter p (split_off_first p t.applied).1 ++ t.unapplied),
    count-append a (filter p (split_off_first p t.applied).1) t.unapplied,
    count-filter a p (split_off_first p t.applied).1,
    count-filter-not a p (split_off_first p t.applied).1,
    count-split_off_first a p t.applied,
  );
}

-- In the part of the list before the first name that passes, none passes.
pub count-split_off_first_kept :
    (a : PatchName) (p : PatchName → Bool) (xs : List PatchName)
    → p a ≡ true
    → count a (split_off_first p xs).0 ≡ 0
unfolding split_off_first
count-split_off_first_kept a p xs h = elim (Option-cases (position p xs)) [
  | inl e ↦
      rw (e, split_off_first)
        (ground
          (arith, count-filter a p xs, count-nil a, ap (count a) (filter-position-none p xs e)))
  | inr (i, e) ↦
      rw (e, split_off_first)
        (ground (
          arith,
          count-filter a p (take i xs),
          count-nil a,
          ap (count a) (filter-take-position p xs i e),
        ))
]

pub has_patch-deleted_state :
    (p : PatchName → Bool) {t : StackTransaction}
    → IsConsistent t
    → (a : PatchName) → has_patch (deleted_state p t) a ≡ (if p a then false else has_patch t a)
unfolding has_patch
has_patch-deleted_state p {t} c a =
    let all_popped = (split_off_first p t.applied).1 in
    let marks₁ = mark_all (filter p all_popped) t.updated_patches in
    let marks₂ = mark_all (filter p t.unapplied) marks₁ in
    ground (
      arith,
      c.counted a,
      count_all a t,
      lookup-mark_all (filter p t.hidden) marks₂ a,
      lookup-mark_all (filter p t.unapplied) marks₁ a,
      lookup-mark_all (filter p all_popped) t.updated_patches a,
      contains-count (filter p t.hidden) a,
      contains-count (filter p t.unapplied) a,
      contains-count (filter p all_popped) a,
      count-filter a p t.hidden,
      count-filter a p t.unapplied,
      count-filter a p all_popped,
      count-split_off_first a p t.applied,
      count-split_off_first_kept a p t.applied,
    )

pub deleted_state-IsConsistent :
    (p : PatchName → Bool) {t : StackTransaction}
    → IsConsistent t
    → IsConsistent (deleted_state p t)
deleted_state-IsConsistent p {t} c = record {
  counted = λ a. ground (
    arith,
    c.counted a,
    count_all a t,
    count_all a (deleted_state p t),
    has_patch-deleted_state p c a,
    count-append a (filter (λ x. not (p x)) (split_off_first p t.applied).1)
        (filter (λ x. not (p x)) t.unapplied),
    count-filter-not a p (split_off_first p t.applied).1,
    count-filter-not a p t.unapplied,
    count-filter-not a p t.hidden,
    count-split_off_first a p t.applied,
    count-split_off_first_kept a p t.applied,
  );
}

-- A step that moves a name from outside the stack into one of its lists and updates its patch.
pub add-IsConsistent :
    (t u : StackTransaction) (pn : PatchName) (patch : PatchState)
    → has_patch t pn ≡ false
    → ((a : PatchName) → count a (all_patches u) ≡ one_if (a == pn) + count a (all_patches t))
    → ((a : PatchName) → has_patch u a ≡ (if pn == a then true else has_patch t a))
    → IsConsistent t
    → IsConsistent u
add-IsConsistent t u pn patch fresh more has c = record {
  counted =
      λ a. ground (arith, c.counted a, more a, has a, fresh, text_eq_iff a pn, text_eq_iff pn a);
}
