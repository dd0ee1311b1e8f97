-- ===== src/Commands/Delete/Choice.antt =====
-- The patches that `stg delete` of src/cmd/delete.rs chooses.
use stgit.Prelude.{
  Text, refl, any, take, length, reverse, get_last?, ◌⊎◌, Option, some, none, if◌then◌else◌,
  Bool-cases, inl, inr, text_eq_iff, ◌==◌, not, ◌∷◌, Bool, true, false, not, ◌&&◌, ◌≡◌, sym, subst,
  arith, List, [], ◌∷◌, ◌++◌, text_Eq, contains,
}
use stgit.Patch.Name.{PatchName}
use stgit.Patch.Outcome.{Outcome, ok-injective, map_err-ok}
use stgit.Patch.Spec.{PatchRange, RangeConstraint}
use stgit.Patch.Range.{resolve_names}
use stgit.Patch.Messages.{range_message}
use stgit.Stack.Access.{all_patches}
use stgit.Commands.Delete.{delete_top, delete_given, delete_lists}
use stgit.Patch.Locator.{Libraries}
use stgit.Stack.State.{Stack, stack_access, state_access}
use stgit.Stack.Transaction.Defs.{transaction_access}
use stgit.Commands.Delete.{DeleteMatches, delete_choice, spills_below}

-- The patches that the arguments choose: the topmost, those of ranges, all, or those of the lists
-- that are asked for.
abbrev IsGivenChoice :
    Libraries → DeleteMatches → Option (List PatchRange) → Stack → List PatchName → Type 0
IsGivenChoice lib matches (some ranges) stack pns =
    resolve_names lib stack RangeConstraint.all_with_applied_boundary ranges ≡ Outcome.ok pns
IsGivenChoice lib matches none stack pns =
    ((matches.all ≡ true) × (pns ≡ all_patches stack))
    ⊎ ((matches.all ≡ false)
        × (pns
            ≡ (if matches.applied then stack.state.applied else [])
              ++ ((if matches.unapplied then stack.state.unapplied else [])
                  ++ (if matches.hidden then stack.state.hidden else []))))

abbrev pub IsDeleteChoice : Libraries → DeleteMatches → Stack → List PatchName → Type 0
IsDeleteChoice lib matches stack pns =
    ((matches.top ≡ true)
      × (pn : PatchName) × (get_last? stack.state.applied ≡ some pn)
      × (pns ≡ pn ∷ []))
    ⊎ ((matches.top ≡ false) × IsGivenChoice lib matches matches.ranges stack pns)

-- As many of the topmost applied patches as there are names are all named.
abbrev pub AreTopmost : List PatchName → List PatchName → Type 0
AreTopmost pns applied =
    (x : PatchName)
    → contains (take (length pns) (reverse applied)) x ≡ true
    → contains pns x ≡ true

none-any :
    (pns xs : List PatchName) (x : PatchName)
    → any (λ pn. not (contains pns pn)) xs ≡ false
    → contains xs x ≡ true
    → contains pns x ≡ true
unfolding contains
none-any pns [] x h k = cc
none-any pns (y ∷ xs) x h k = elim (Bool-cases (x == y)) [
  | inl e ↦ subst (λ z. contains pns z ≡ true) (sym ((text_eq_iff x y).0 e)) (ground (arith, h))
  | inr n ↦ none-any pns xs x (ground (arith, h)) (ground (arith, k, n))
]

pub spilled :
    (pns : List PatchName) (matches : DeleteMatches) (stack : Stack)
    → (matches.spill && spills_below pns stack) ≡ false
    → matches.spill ≡ true
    → AreTopmost pns stack.state.applied
unfolding spills_below
spilled pns matches stack h k x =
    none-any pns (take (length pns) (reverse stack.state.applied)) x (ground (arith, h, k))

either-branch :
    (b : Bool) (xs ys pns : List PatchName)
    → (if b then xs else ys) ≡ pns
    → ((b ≡ true) × (pns ≡ xs)) ⊎ ((b ≡ false) × (pns ≡ ys))
either-branch true xs ys pns e = inl (refl, sym e)
either-branch false xs ys pns e = inr (refl, sym e)

either-outcome :
    (b : Bool) (m n : Outcome Text (List PatchName)) (pns : List PatchName)
    → (if b then m else n) ≡ Outcome.ok pns
    → ((b ≡ true) × (m ≡ Outcome.ok pns)) ⊎ ((b ≡ false) × (n ≡ Outcome.ok pns))
either-outcome true m n pns e = inl (refl, e)
either-outcome false m n pns e = inr (refl, e)

top-choice :
    (applied pns : List PatchName) (o : Option PatchName)
    → get_last? applied ≡ o
    → delete_top o ≡ Outcome.ok pns
    → (pn : PatchName) × (get_last? applied ≡ some pn) × (pns ≡ pn ∷ [])
unfolding delete_top
top-choice applied pns none h e = cc
top-choice applied pns (some pn) h e = (pn, h, sym (ok-injective e))

given-choice :
    (lib : Libraries) (matches : DeleteMatches) (stack : Stack) (ranges : Option (List PatchRange))
    (pns : List PatchName)
    → delete_given lib matches stack ranges ≡ Outcome.ok pns
    → IsGivenChoice lib matches ranges stack pns
unfolding delete_given delete_lists
given-choice lib matches stack (some ranges) pns e = map_err-ok (range_message lib) _ pns e
given-choice lib matches stack none pns e =
    either-branch matches.all (all_patches stack) _ pns (ok-injective e)

pub choice-IsDeleteChoice :
    (lib : Libraries) (matches : DeleteMatches) (stack : Stack) (pns : List PatchName)
    → delete_choice lib matches stack ≡ Outcome.ok pns
    → IsDeleteChoice lib matches stack pns
unfolding delete_choice
choice-IsDeleteChoice lib matches stack pns e = elim (either-outcome matches.top _ _ pns e) [
  | inl (y, h) ↦ let (pn, g, k) = top-choice stack.state.applied pns _ refl h in inl (y, pn, g, k)
  | inr (n, h) ↦ inr (n, given-choice lib matches stack matches.ranges pns h)
]
