-- ===== src/Commands/Push/Choice.antt =====
-- The patches that `stg push` of src/cmd/push.rs chooses.
use stgit.Prelude.{
  ◌-◌, suc, ℕ, ℤ, pos, negsuc, sym, reverse, take, ltb, Bool-cases, Text, ◌≤◌, Bool, true, false,
  ◌≡◌, refl, ap, subst, ◌∙◌, arith, List, Option, none, some, ◌⊎◌, inl, inr, text_Eq, is_empty,
  count, count-reverse, count-take-drop, length, if◌then◌else◌,
}
use stgit.Patch.Name.{PatchName}
use stgit.Patch.Outcome.{Outcome, ok-injective, map_err-ok}
use stgit.Patch.Spec.{PatchRange, RangeConstraint, location_constraint}
use stgit.Patch.Locator.{Libraries}
use stgit.Patch.Range.Selected.{resolve_names-Selection}
use stgit.Stack.Access.{get_allowed}
use stgit.Stack.State.{Stack, stack_access, state_access}
use stgit.Stack.Transaction.Defs.{transaction_access}
use stgit.Commands.Push.{
  PushMatches, push_count, push_numbered, in_order, push_choice, already_applied_message,
}
use stgit.Commands.Numbered.{IsNumbered, take-min}
use stgit.Patch.Range.{resolve_names}

-- The names are unapplied patches, each named as often as it stands there.
abbrev pub Within : List PatchName → List PatchName → Type 0
Within unapplied pns = (x : PatchName) → count x pns ≤ count x unapplied

-- The patches that the arguments choose: those of ranges, all, or those of a number.
abbrev pub IsPushChoice :
    Libraries → PushMatches → Option (List PatchRange) → Stack → List PatchName → Type 0
IsPushChoice lib matches (some ranges) stack pns =
    resolve_names lib stack RangeConstraint.unapplied ranges ≡ Outcome.ok pns
IsPushChoice lib matches none stack pns =
    ((matches.all ≡ true) × (pns ≡ stack.state.unapplied))
    ⊎ ((matches.all ≡ false) × IsNumbered matches.number stack.state.unapplied pns)

take-Within :
    (n : ℕ) (unapplied pns : List PatchName) → pns ≡ take n unapplied → Within unapplied pns
take-Within n unapplied pns e x = omega (arith, ap (count x) e, count-take-drop x n unapplied)

numbered-Within :
    (number : Option ℤ) (unapplied pns : List PatchName)
    → IsNumbered number unapplied pns
    → Within unapplied pns
numbered-Within none unapplied pns e = take-Within 1 unapplied pns e
numbered-Within (some (pos n)) unapplied pns e = take-Within n unapplied pns e
numbered-Within (some (negsuc n)) unapplied pns e =
    take-Within (length unapplied - suc n) unapplied pns e.1

push_numbered-IsNumbered :
    (number : Option ℤ) (unapplied : List PatchName)
    → is_empty (push_numbered number unapplied) ≡ false
    → IsNumbered number unapplied (push_numbered number unapplied)
unfolding push_numbered push_count
push_numbered-IsNumbered none unapplied n = refl
push_numbered-IsNumbered (some (pos n)) unapplied k = take-min n unapplied
push_numbered-IsNumbered (some (negsuc n)) unapplied k =
    elim (Bool-cases (ltb (suc n) (length unapplied))) [
      | inl y ↦ rw y (ground arith, refl)
      | inr f ↦ absurd (nonempty f)
    ]
  where
    nonempty : ltb (suc n) (length unapplied) ≡ false → ⊥
    nonempty f = cc (k, f)

pub in_order-reverse :
    (reversed : Bool) (pns : List PatchName)
    → in_order reversed pns ≡ (if reversed then reverse pns else pns)
unfolding in_order
in_order-reverse true pns = refl
in_order-reverse false pns = refl

pub in_order-Within :
    (reversed : Bool) (unapplied pns : List PatchName)
    → Within unapplied pns
    → Within unapplied (in_order reversed pns)
unfolding in_order
in_order-Within true unapplied pns h x = omega (arith, h x, count-reverse x pns)
in_order-Within false unapplied pns h x = h x

unranged-choice :
    (empty all : Bool) (message : Text) (unapplied numbered pns : List PatchName)
    → (if empty
        then Outcome.err message
        else if all
        then Outcome.ok unapplied
        else Outcome.ok numbered)
      ≡ Outcome.ok pns
    → ((all ≡ true) × (pns ≡ unapplied)) ⊎ ((all ≡ false) × (numbered ≡ pns))
unranged-choice true all message unapplied numbered pns e = cc
unranged-choice false true message unapplied numbered pns e = inl (refl, sym (ok-injective e))
unranged-choice false false message unapplied numbered pns e = inr (refl, ok-injective e)

module _ (lib : Libraries) where
  pub push_choice-IsPushChoice :
      (matches : PushMatches) (stack : Stack) (ranges : Option (List PatchRange))
      (pns : List PatchName)
      → push_choice lib matches stack ranges ≡ Outcome.ok pns
      → is_empty pns ≡ false
      → IsPushChoice lib matches ranges stack pns
  unfolding push_choice
  push_choice-IsPushChoice matches stack (some ranges) pns e n =
      map_err-ok (already_applied_message lib stack) _ pns e
  push_choice-IsPushChoice matches stack none pns e n =
      elim (unranged-choice (is_empty stack.state.unapplied) matches.all _ stack.state.unapplied
        (push_numbered matches.number stack.state.unapplied) pns e) [
          | inl h ↦ inl h
          | inr h ↦ inr (
            h.0,
            subst (IsNumbered matches.number stack.state.unapplied) h.1 (
                push_numbered-IsNumbered matches.number stack.state.unapplied
                  (ap is_empty h.1 ∙ n)),
          )
        ]

  pub choice-Within :
      (matches : PushMatches) (stack : Stack) (ranges : Option (List PatchRange))
      (pns : List PatchName)
      → IsPushChoice lib matches ranges stack pns
      → Within stack.state.unapplied pns
  unfolding location_constraint get_allowed
  choice-Within matches stack (some ranges) pns e x =
      (resolve_names-Selection lib stack RangeConstraint.unapplied ranges pns e x).1
  choice-Within matches stack none pns (inl (h, e)) x = omega (arith, ap (count x) e)
  choice-Within matches stack none pns (inr (h, e)) x =
      numbered-Within matches.number stack.state.unapplied pns e x
