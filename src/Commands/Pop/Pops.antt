-- ===== src/Commands/Pop/Pops.antt =====
-- What `stg pop` of src/cmd/pop.rs leaves.
use stgit.Prelude.{
  false, pos, negsuc, suc, ◌∙◌, ℕ, ◌<◌, ◌≤◌, true, not, ◌≡◌, refl, ap, subst, ◌⊎◌, arith, List, [],
  ◌∷◌, ◌++◌, reverse, Option, none, some, text_Eq, text_eq_iff, Bool-cases, inl, inr, ◌==◌,
  is_empty, take, length, filter, contains, contains-count, count, count-append, count-cons,
  count-nil, count-filter, codes, ℤ,
}
use stgit.Exec.{panic}
use stgit.Patch.Name.{PatchName}
use stgit.Patch.Outcome.{Outcome}
use stgit.Patch.Spec.{PatchRange, RangeConstraint}
use stgit.Patch.Locator.{Libraries}
use stgit.Patch.Range.{resolve_names}
use stgit.Stack.State.{Stack, stack_access, state_access}
use stgit.Stack.Repository.{Repository}
use stgit.Stack.Transaction.Consistent.{IsWellFormed}
use stgit.Stack.Transaction.Execute.Yields.{
  Yields, Yields-mono, Yields-then, Yields-bind, Yields-branch, Yields-raise, Yields-expect,
  Yields-pure,
}
use stgit.Commands.{Worktree}
use stgit.Commands.Reordering.{
  kept, kept_all, filter-same, Placed, IsPlacement, builder_session-Placed, count_parts,
  chosen-Yields, setup_transaction-stack,
}
use stgit.Commands.Numbered.{IsNumbered, take-min, length-reverse, is_zero-eq}
use stgit.Commands.Pop.{
  PopMatches, num_to_take, pop_split, is_zero, pop_builder, topmost, pop_numbered, pop_choice,
  pop_chosen, pop_found, run_pop,
}

-- The names of a list that are among the given ones.
abbrev pub among : List PatchName → List PatchName → List PatchName
among pns xs = filter (λ pn. contains pns pn) xs

removed-contains :
    (pns rest : List PatchName) (pn x : PatchName)
    → count pn (pn ∷ rest) ≤ 1
    → 0 < count x rest
    → contains (filter (λ y. not (y == pn)) pns) x ≡ contains pns x
removed-contains pns rest pn x once h = ground (
  arith,
  once,
  h,
  count-cons pn pn rest,
  text_eq_iff x pn,
  text_eq_iff pn pn,
  contains-count (filter (λ y. not (y == pn)) pns) x,
  contains-count pns x,
  count-filter x (λ y. not (y == pn)) pns,
)

-- The loop parts the applied patches by membership, if none stands twice.
pop_split-filter :
    (pns xs : List PatchName)
    → ((x : PatchName) → count x xs ≤ 1)
    → pop_split pns xs ≡ (among pns xs, kept pns xs)
unfolding pop_split
pop_split-filter pns [] once = refl
pop_split-filter pns (pn ∷ rest) once =
    let once' : (x : PatchName) → count x rest ≤ 1 =
      λ x. omega (arith, once x, count-cons x pn rest) in
    elim (Bool-cases (contains pns pn)) [
      | inl y ↦
          let fewer = filter (λ x. not (x == pn)) pns in
          let ih = pop_split-filter fewer rest once' in
          let same_in : among fewer rest ≡ among pns rest =
            filter-same _ _ rest (λ x h. removed-contains pns rest pn x (once pn) h) in
          let same_out : kept fewer rest ≡ kept pns rest =
            filter-same _ _ rest (λ x h. ap not (removed-contains pns rest pn x (once pn) h)) in
          rw (pop_split, y, ih, same_in, same_out) refl
      | inr n ↦ rw (pop_split, n, pop_split-filter pns rest once') refl
    ]

pop-IsPlacement :
    (pns : List PatchName) (stack : Stack)
    → IsWellFormed stack.state
    → IsPlacement []
        (kept pns stack.state.applied)
        (among pns stack.state.applied ++ stack.state.unapplied)
        stack.state
unfolding contains
pop-IsPlacement pns stack v = record {
  total = λ x. ground (
    arith,
    ap (count x) (kept_all [] stack.state.hidden (λ y h. count-nil y)),
    count-append x (among pns stack.state.applied) stack.state.unapplied,
    count-filter x (λ pn. contains pns pn) stack.state.applied,
    count-filter x (λ pn. not (contains pns pn)) stack.state.applied,
  );
  from_hidden = λ x h. ground (
    arith,
    count_parts stack v x,
    h,
    contains-count (kept pns stack.state.applied) x,
    count-filter x (λ pn. not (contains pns pn)) stack.state.applied,
  );
}

-- The named patches have gone from the applied ones to the front of the unapplied ones, in the
-- order in which they were applied.
abbrev pub IsPopped : List PatchName → Stack → Stack → Type 0
IsPopped pns before after =
    Placed (kept pns before.state.applied)
      (among pns before.state.applied ++ before.state.unapplied) before.state.hidden after

-- The patches that the arguments choose: all, those of a number from the top, or those of ranges.
abbrev IsPartChoice :
    Option ℤ → Option (List PatchRange) → Libraries → Stack → List PatchName → Type 0
IsPartChoice (some number) ranges lib stack pns =
    IsNumbered (some number) (reverse stack.state.applied) pns
IsPartChoice none (some ranges) lib stack pns =
    resolve_names lib stack RangeConstraint.applied ranges ≡ Outcome.ok pns
IsPartChoice none none lib stack pns = IsNumbered none (reverse stack.state.applied) pns

abbrev pub IsPopChoice : Libraries → PopMatches → Stack → List PatchName → Type 0
IsPopChoice lib matches stack pns =
    ((matches.all ≡ true) × (pns ≡ stack.state.applied))
    ⊎ ((matches.all ≡ false) × IsPartChoice matches.number matches.ranges lib stack pns)

-- A negative number keeps as many applied patches as there are, or more.
abbrev KeepsAll : Option ℤ → ℕ → Type 0
KeepsAll (some (negsuc n)) num_applied = num_applied ≤ suc n
KeepsAll _ num_applied = ⊥

-- The arguments ask for no patch.
abbrev pub AsksForNone : PopMatches → Stack → Type 0
AsksForNone matches stack =
    (matches.number ≡ some (pos 0))
    ⊎ ((matches.all ≡ false) × KeepsAll matches.number (length stack.state.applied))

-- There is nothing to do, or a choice.
abbrev ChoiceOr : Type 0 → (List PatchName → Type 0) → Option (List PatchName) → Type 0
ChoiceOr N P none = N
ChoiceOr N P (some pns) = P pns

ChoiceOr-IsNumbered :
    (number : ℤ) (applied : List PatchName) (o : Option ℕ)
    → num_to_take number (length applied) ≡ o
    → ChoiceOr
        (KeepsAll (some number) (length applied))
        (IsNumbered (some number) (reverse applied))
        (elim o [ none ↦ none | some n ↦ some (take n (reverse applied)) ])
unfolding num_to_take
ChoiceOr-IsNumbered (pos n) applied none e = cc
ChoiceOr-IsNumbered (pos n) applied (some m) e =
    ap (λ k. take k (reverse applied)) (ground (arith, e, length-reverse applied))
    ∙ take-min n (reverse applied)
ChoiceOr-IsNumbered (negsuc n) applied none e = ground arith
ChoiceOr-IsNumbered (negsuc n) applied (some m) e = (
  ground (arith, length-reverse applied),
  ap (λ k. take k (reverse applied)) (ground (arith, length-reverse applied)),
)

module _ {W : Type 0} (lib : Libraries) (repo : Repository W) (worktree : Worktree W) where
  pop_session-IsPopped :
      (matches : PopMatches) (stack : Stack) (pns : List PatchName)
      → IsWellFormed stack.state
      → Yields (pop_chosen lib repo worktree matches stack pns) (IsPopped pns stack)
  unfolding pop_chosen pop_builder
  pop_session-IsPopped matches stack pns v =
      let parts =
        pop_split-filter pns stack.state.applied (λ x. omega (arith, count_parts stack v x)) in
      Yields-branch _ (is_empty pns) (λ y. Yields-raise _ panic)
        (λ n. Yields-then _ _ (λ _. Yields-then _ _ (λ statuses. Yields-then _ _ (λ _.
          Yields-then _ _ (λ _. Yields-then _ _ (λ _. Yields-then _ _ (λ _.
            Yields-bind _ _
              (Yields-expect _ _ (λ builder g. setup_transaction-stack stack builder g))
              (λ builder g. rw (parts) (
                Yields-mono _ _
                  (λ after p.
                    subst
                      (λ h.
                        Placed (kept pns stack.state.applied)
                          (among pns stack.state.applied ++ stack.state.unapplied) h after)
                      (kept_all [] stack.state.hidden (λ x h. count-nil x)) p)
                  (builder_session-Placed repo (pop_builder matches builder) stack []
                    (kept pns stack.state.applied)
                    (among pns stack.state.applied ++ stack.state.unapplied) (codes "pop") g v
                    (pop-IsPlacement pns stack v)))))))))))

  topmost-Yields :
      (P : Option (List PatchName) → Type 0) (stack : Stack) (o : Option ℕ)
      → P (elim o [ none ↦ none | some n ↦ some (take n (reverse stack.state.applied)) ])
      → Yields (topmost lib repo worktree stack o) P
  unfolding topmost
  topmost-Yields P stack none h = Yields-pure _ none h
  topmost-Yields P stack (some n) h = Yields-pure _ (some (take n (reverse stack.state.applied))) h

  pop_numbered-Yields :
      (number : Option ℤ) (ranges : Option (List PatchRange)) (stack : Stack)
      → Yields (pop_numbered lib repo worktree number ranges stack) (
          ChoiceOr
            (KeepsAll number (length stack.state.applied))
            (IsPartChoice number ranges lib stack))
  unfolding pop_numbered
  pop_numbered-Yields (some number) ranges stack =
      topmost-Yields _ stack (num_to_take number (length stack.state.applied))
        (ChoiceOr-IsNumbered number stack.state.applied _ refl)
  pop_numbered-Yields none (some ranges) stack =
      Yields-bind _ _ (chosen-Yields _ (resolve_names lib stack RangeConstraint.applied ranges))
        (λ pns e. Yields-pure _ (some pns) e)
  pop_numbered-Yields none none stack = topmost-Yields _ stack (some 1) refl

  ChoiceOr-part :
      (matches : PopMatches) (stack : Stack) (found : Option (List PatchName))
      → matches.all ≡ false
      → ChoiceOr
          (KeepsAll matches.number (length stack.state.applied))
          (IsPartChoice matches.number matches.ranges lib stack)
          found
      → ChoiceOr (AsksForNone matches stack) (IsPopChoice lib matches stack) found
  ChoiceOr-part matches stack none n h = inr (n, h)
  ChoiceOr-part matches stack (some pns) n h = inr (n, h)

  pop_choice-Yields :
      (matches : PopMatches) (stack : Stack)
      → Yields
          (pop_choice lib repo worktree matches stack)
          (ChoiceOr (AsksForNone matches stack) (IsPopChoice lib matches stack))
  unfolding pop_choice
  pop_choice-Yields matches stack =
      Yields-branch _ matches.all (λ y. Yields-pure _ _ (inl (y, refl)))
        (λ n.
          Yields-mono _ _ (λ found h. ChoiceOr-part matches stack found n h)
            (pop_numbered-Yields matches.number matches.ranges stack))

  found-Yields :
      (matches : PopMatches) (stack : Stack)
      → IsWellFormed stack.state
      → (found : Option (List PatchName))
      → ChoiceOr (AsksForNone matches stack) (IsPopChoice lib matches stack) found
      → Yields (pop_found lib repo worktree matches stack found) (λ after.
        (AsksForNone matches stack × (after ≡ stack))
        ⊎ ((pns : List PatchName) × IsPopChoice lib matches stack pns × IsPopped pns stack after))
  unfolding pop_found
  found-Yields matches stack v none h = Yields-pure _ stack (inl (h, refl))
  found-Yields matches stack v (some pns) h =
      Yields-mono _ _ (λ after q. inr (pns, h, q)) (pop_session-IsPopped matches stack pns v)

  -- Where the state of the opened stack is well formed, `stg pop`, in every world where it returns
  -- a stack, either returns the stack as it is, and then the number is 0, or negative and there are
  -- no more applied patches than it keeps, or takes the chosen patches (all, as many of the topmost
  -- ones as the number says, all but as many of the lowest ones for a negative number, those that
  -- the ranges resolve to, or the topmost one) off the applied ones and puts them before the
  -- unapplied ones, in the order in which they were applied; the other lists keep their order, the
  -- hidden patches are untouched, and the state is well formed.
  pub run_pop-IsPopped :
      (matches : PopMatches) (stack : Stack)
      → IsWellFormed stack.state
      → Yields (run_pop lib repo worktree matches stack) (λ after.
        (AsksForNone matches stack × (after ≡ stack))
        ⊎ ((pns : List PatchName) × IsPopChoice lib matches stack pns × IsPopped pns stack after))
  unfolding run_pop pop_found
  run_pop-IsPopped matches stack v =
      Yields-branch _ (is_zero matches.number)
        (λ y. Yields-pure _ stack (inl (inl (is_zero-eq matches.number y), refl)))
        (λ n.
          Yields-branch _ (is_empty stack.state.applied) (λ y. Yields-raise _ _)
            (λ m. Yields-bind _ _ (pop_choice-Yields matches stack) (found-Yields matches stack v)))
