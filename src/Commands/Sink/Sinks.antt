-- ===== src/Commands/Sink/Sinks.antt =====
-- What `stg sink` of src/cmd/sink.rs leaves.
use stgit.Prelude.{
  ℕ, zero, suc, ◌+◌, ◌≤◌, Bool, true, false, not, ◌≡◌, refl, sym, ap, subst, ◌∙◌, arith, List, [],
  ◌∷◌, ◌++◌, Option, none, some, text_Eq, text_eq_iff, Option-cases, inl, inr, ◌==◌, head?,
  get_last?, take, drop, take-append-drop, position, contains, contains-count, count, count-append,
  count-take-drop, count-cons, count-nil, count-filter, codes, if◌then◌else◌,
}
use stgit.Exec.{bail, pure, raise}
use stgit.Patch.Name.{PatchName}
use stgit.Patch.Outcome.{Outcome}
use stgit.Patch.Spec.{PatchLocator, PatchRange, RangeConstraint, location_constraint}
use stgit.Patch.Locator.{Libraries}
use stgit.Patch.Locator.Resolve.{resolve_name}
use stgit.Patch.Range.{constrain, resolve_names}
use stgit.Patch.Range.Selected.{IsSelection, resolve_names-Selection, constrain-allowed}
use stgit.Stack.Access.{LocationConstraint, get_allowed, all_patches}
use stgit.Stack.State.{Stack, stack_access, state_access}
use stgit.Stack.Repository.{Repository}
use stgit.Stack.Transaction.Consistent.{IsWellFormed}
use stgit.Stack.Transaction.Execute.Yields.{
  Yields, Yields-mono, Yields-then, Yields-bind, Yields-raise, Yields-expect, Yields-pure,
}
use stgit.Commands.{Worktree}
use stgit.Commands.Reordering.{
  kept, Placed, IsPlacement, builder_session-Placed, count_parts, chosen-Yields,
  setup_transaction-stack,
}
use stgit.Commands.Sink.{
  SinkMatches, target_pos, sink_applied, sink_unapplied, sink_builder, sink_target, sink_choice,
  sink_patches, run_sink,
}

-- Where the patches are put: at the bottom, or next to the target.
abbrev pub AtTarget : Bool → Option PatchName → List PatchName → List PatchName → Type 0
AtTarget is_above none below above = below ≡ []
AtTarget true (some target) below above = get_last? below ≡ some target
AtTarget false (some target) below above = head? above ≡ some target

-- The other applied patches are parted in two, and the named ones stand between the parts; with
-- `nopush` the upper part goes to the unapplied patches.
abbrev pub SunkLists :
    Bool → List PatchName → List PatchName → List PatchName → Stack → Stack → Type 0
SunkLists false pns below above before after =
    Placed (below ++ (pns ++ above)) (kept pns before.state.unapplied)
      (kept pns before.state.hidden) after
SunkLists true pns below above before after =
    Placed (below ++ pns) (above ++ kept pns before.state.unapplied) (kept pns before.state.hidden)
      after

pub record Sunk (nopush is_above : Bool) (target : Option PatchName) (pns : List PatchName)
    (before after : Stack) : Type 0 where
  pub below : List PatchName
  pub above : List PatchName
  pub split : below ++ above ≡ kept pns before.state.applied
  pub at_target : AtTarget is_above target below above
  pub lists : SunkLists nopush pns below above before after

position-head? :
    (t : PatchName) (xs : List PatchName) (i : ℕ)
    → position (λ x. x == t) xs ≡ some i
    → (head? (drop i xs) ≡ some t) × (get_last? (take (suc i) xs) ≡ some t)
unfolding position
position-head? t [] i h = cc
position-head? t (x ∷ xs) zero h =
    (ground (arith, text_eq_iff x t), ground (arith, text_eq_iff x t))
position-head? t (x ∷ []) (suc i) h = absurd (ground arith)
position-head? t (x ∷ y ∷ xs) (suc i) h =
    let (a, b) = position-head? t (y ∷ xs) i (ground arith) in (a, b)

target_pos-AtTarget :
    (is_above : Bool) (target : Option PatchName) (xs : List PatchName) (at : ℕ)
    → target_pos is_above target xs ≡ some at
    → AtTarget is_above target (take at xs) (drop at xs)
unfolding target_pos
target_pos-AtTarget is_above none xs at h =
    let e : 0 ≡ at = ground arith in subst (λ k. take k xs ≡ []) e refl
target_pos-AtTarget true (some t) xs at h = elim (Option-cases (position (λ x. x == t) xs)) [
  | inl n ↦ absurd (ground (arith, n, h))
  | inr (i, e) ↦
      let f : suc i ≡ at = ground (arith, e, h) in
      subst (λ k. get_last? (take k xs) ≡ some t) f (position-head? t xs i e).1
]
target_pos-AtTarget false (some t) xs at h = elim (Option-cases (position (λ x. x == t) xs)) [
  | inl n ↦ absurd (ground (arith, n, h))
  | inr (i, e) ↦
      let f : i ≡ at = ground (arith, e, h) in
      subst (λ k. head? (drop k xs) ≡ some t) f (position-head? t xs i e).0
]

-- The counts of the parts that `stg sink` puts together.
sink_counts :
    (at : ℕ) (pns : List PatchName) (stack : Stack)
    → IsWellFormed stack.state
    → IsSelection (all_patches stack) pns
    → (x : PatchName)
    → (count x pns
        ≤ count x stack.state.applied + count x stack.state.unapplied + count x stack.state.hidden)
      × (count x (take at (kept pns stack.state.applied))
            + count x (drop at (kept pns stack.state.applied))
          ≡ (if not (contains pns x) then count x stack.state.applied else 0))
      × (count x (kept pns stack.state.unapplied)
          ≡ (if not (contains pns x) then count x stack.state.unapplied else 0))
      × (count x (kept pns stack.state.hidden)
          ≡ (if not (contains pns x) then count x stack.state.hidden else 0))
sink_counts at pns stack v sel x = (
  omega (
    arith,
    sel x,
    count-append x stack.state.applied (stack.state.unapplied ++ stack.state.hidden),
    count-append x stack.state.unapplied stack.state.hidden,
  ),
  count-take-drop x at (kept pns stack.state.applied)
      ∙ count-filter x (λ pn. not (contains pns pn)) stack.state.applied,
  count-filter x (λ pn. not (contains pns pn)) stack.state.unapplied,
  count-filter x (λ pn. not (contains pns pn)) stack.state.hidden,
)

sink-IsPlacement :
    (nopush : Bool) (at : ℕ) (pns : List PatchName) (stack : Stack)
    → IsWellFormed stack.state
    → IsSelection (all_patches stack) pns
    → IsPlacement pns
        (sink_applied nopush at pns (kept pns stack.state.applied))
        (sink_unapplied nopush at (kept pns stack.state.applied) (kept pns stack.state.unapplied))
        stack.state
unfolding sink_applied sink_unapplied
sink-IsPlacement true at pns stack v sel = record {
  total = λ x. ground (
    arith,
    count_parts stack v x,
    count-append x (take at (kept pns stack.state.applied)) pns,
    count-append x (drop at (kept pns stack.state.applied)) (kept pns stack.state.unapplied),
    sink_counts at pns stack v sel x,
    contains-count pns x,
  );
  from_hidden = λ x h. ground (
    arith,
    count_parts stack v x,
    count-append x (take at (kept pns stack.state.applied)) pns,
    count-append x (drop at (kept pns stack.state.applied)) (kept pns stack.state.unapplied),
    sink_counts at pns stack v sel x,
    contains-count pns x,
    contains-count (sink_applied true at pns (kept pns stack.state.applied)) x,
    h,
  );
}
sink-IsPlacement false at pns stack v sel = record {
  total = λ x. ground (
    arith,
    count_parts stack v x,
    count-append x (take at (kept pns stack.state.applied))
        (pns ++ drop at (kept pns stack.state.applied)),
    count-append x pns (drop at (kept pns stack.state.applied)),
    sink_counts at pns stack v sel x,
    contains-count pns x,
  );
  from_hidden = λ x h. ground (
    arith,
    count_parts stack v x,
    count-append x (take at (kept pns stack.state.applied))
        (pns ++ drop at (kept pns stack.state.applied)),
    count-append x pns (drop at (kept pns stack.state.applied)),
    sink_counts at pns stack v sel x,
    contains-count pns x,
    contains-count (sink_applied false at pns (kept pns stack.state.applied)) x,
    h,
  );
}

Placed-SunkLists :
    (nopush : Bool) (at : ℕ) (pns : List PatchName) (before after : Stack)
    → Placed
        (sink_applied nopush at pns (kept pns before.state.applied))
        (sink_unapplied nopush at (kept pns before.state.applied) (kept pns before.state.unapplied))
        (kept pns before.state.hidden)
        after
    → SunkLists nopush pns
        (take at (kept pns before.state.applied))
        (drop at (kept pns before.state.applied))
        before
        after
unfolding sink_applied sink_unapplied
Placed-SunkLists true at pns before after p = p
Placed-SunkLists false at pns before after p = p

get_last?-count :
    (x pn : PatchName) (xs : List PatchName)
    → get_last? xs ≡ some pn
    → count x (pn ∷ []) ≤ count x xs
get_last?-count x pn [] h = cc
get_last?-count x pn (y ∷ []) h =
    let e : y ≡ pn = ground arith in omega (arith, ap (λ z. count x (z ∷ [])) e)
get_last?-count x pn (y ∷ z ∷ xs) h =
    omega (arith, get_last?-count x pn (z ∷ xs) h, count-cons x y (z ∷ xs))

last-Selection :
    (x pn : PatchName) (stack : Stack)
    → get_last? stack.state.applied ≡ some pn
    → (count x (pn ∷ []) ≤ 1) × (count x (pn ∷ []) ≤ count x (all_patches stack))
last-Selection x pn stack h = (
  ground (arith, count-cons x pn [], count-nil x),
  omega (
    arith,
    get_last?-count x pn stack.state.applied h,
    count-append x stack.state.applied (stack.state.unapplied ++ stack.state.hidden),
  ),
)

module _ {W : Type 0} (lib : Libraries) (repo : Repository W) (worktree : Worktree W) where
  sink_patches-Sunk :
      (matches : SinkMatches) (stack : Stack) (target : Option PatchName) (pns : List PatchName)
      → IsWellFormed stack.state
      → IsSelection (all_patches stack) pns
      → Yields
          (sink_patches lib repo worktree matches stack target pns)
          (Sunk matches.nopush matches.is_above target pns stack)
  unfolding sink_patches sink_builder
  sink_patches-Sunk matches stack target pns v sel =
      Yields-bind _ _ (Yields-expect _ _ (λ at e. e)) (λ at e.
        Yields-bind _ _ (Yields-expect _ _ (λ builder f. setup_transaction-stack stack builder f))
          (λ builder f.
            Yields-mono _ _
              (λ after p. record {
                below = take at (kept pns stack.state.applied);
                above = drop at (kept pns stack.state.applied);
                split = take-append-drop at (kept pns stack.state.applied);
                at_target =
                    target_pos-AtTarget matches.is_above target (kept pns stack.state.applied) at e;
                lists = Placed-SunkLists matches.nopush at pns stack after p;
              })
              (builder_session-Placed repo (sink_builder matches builder) stack pns
                (sink_applied matches.nopush at pns (kept pns stack.state.applied))
                (sink_unapplied matches.nopush at (kept pns stack.state.applied)
                  (kept pns stack.state.unapplied))
                (codes "sink") f v (sink-IsPlacement matches.nopush at pns stack v sel))))

  -- The target is what its locator resolves to, an applied patch.
  abbrev pub IsTarget : Option PatchLocator → Stack → Option PatchName → Type 0
  IsTarget none stack target = target ≡ none
  IsTarget (some loc) stack target =
      (pn : PatchName) × (target ≡ some pn)
      × (resolve_name lib stack loc ≡ Outcome.ok pn)
      × (contains stack.state.applied pn ≡ true)

  -- The patches are what the ranges resolve to, or the topmost applied patch.
  abbrev pub IsChoice : Option (List PatchRange) → Stack → List PatchName → Type 0
  IsChoice none stack pns =
      (pn : PatchName) × (pns ≡ pn ∷ []) × (get_last? stack.state.applied ≡ some pn)
  IsChoice (some ranges) stack pns =
      resolve_names lib stack RangeConstraint.all ranges ≡ Outcome.ok pns

  IsChoice-Selection :
      (ranges : Option (List PatchRange)) (stack : Stack) (pns : List PatchName)
      → IsChoice ranges stack pns
      → IsSelection (all_patches stack) pns
  unfolding location_constraint get_allowed
  IsChoice-Selection (some ranges) stack pns h =
      resolve_names-Selection lib stack RangeConstraint.all ranges pns h
  IsChoice-Selection none stack pns (pn, e, f) =
      subst (IsSelection (all_patches stack)) (sym e) (λ x. last-Selection x pn stack f)

  topmost-Yields :
      (last : Option PatchName)
      → Yields {W = W}
          (elim last [
            | some patchname ↦ pure (patchname ∷ [])
            | none ↦ raise (bail (codes "no patches applied"))
          ])
          (λ pns. (pn : PatchName) × (pns ≡ pn ∷ []) × (last ≡ some pn))
  topmost-Yields (some pn) = Yields-pure _ (pn ∷ []) (pn, refl, refl)
  topmost-Yields none = Yields-raise _ _

  sink_target-Yields :
      (is_above : Bool) (target : Option PatchLocator) (stack : Stack)
      → Yields (sink_target lib repo worktree is_above target stack) (IsTarget target stack)
  unfolding sink_target get_allowed
  sink_target-Yields is_above none stack = Yields-pure _ none refl
  sink_target-Yields is_above (some loc) stack =
      Yields-bind _ _ (chosen-Yields _ (resolve_name lib stack loc)) (λ found e.
        Yields-bind _ _ (chosen-Yields _ (constrain lib stack found LocationConstraint.applied))
          (λ pn f.
            let (same, known) = constrain-allowed lib stack found pn LocationConstraint.applied f in
            Yields-pure _ (some pn) (
              pn,
              refl,
              e ∙ ap Outcome.ok (sym same),
              subst (λ n. contains stack.state.applied n ≡ true) (sym same) known,
            )))

  sink_choice-Yields :
      (ranges : Option (List PatchRange)) (stack : Stack)
      → Yields (sink_choice lib repo worktree ranges stack) (IsChoice ranges stack)
  unfolding sink_choice
  sink_choice-Yields (some ranges) stack = chosen-Yields _ _
  sink_choice-Yields none stack = topmost-Yields (get_last? stack.state.applied)

  -- Where the state of the opened stack is well formed, `stg sink`, in every world where it returns
  -- a stack, leaves the patches that its ranges resolve to (or the topmost applied one) between two
  -- parts of the other applied patches: the lower part is empty, or the upper one begins with the
  -- target, or the lower one ends with it with `target-above`. With `nopush` the upper part is put
  -- before the other unapplied patches. Nothing else moves, except that the named patches leave the
  -- unapplied and the hidden ones; the state is well formed.
  pub run_sink-Sunk :
      (matches : SinkMatches) (stack : Stack)
      → IsWellFormed stack.state
      → Yields (run_sink lib repo worktree matches stack) (λ after.
        (target : Option PatchName) × (pns : List PatchName) × IsTarget matches.target stack target
        × IsChoice matches.ranges stack pns
        × Sunk matches.nopush matches.is_above target pns stack after)
  unfolding run_sink
  run_sink-Sunk matches stack v = Yields-then _ _ (λ _. Yields-then _ _ (λ statuses.
      Yields-then _ _ (λ _. Yields-then _ _ (λ _. Yields-then _ _ (λ _.
        Yields-bind _ _ (sink_target-Yields matches.is_above matches.target stack) (λ target e.
          Yields-bind _ _ (sink_choice-Yields matches.ranges stack) (λ pns f. Yields-then _ _ (λ _.
            Yields-mono _ _ (λ after q. (target, pns, e, f, q))
              (sink_patches-Sunk matches stack target pns v
                (IsChoice-Selection matches.ranges stack pns f))))))))))
