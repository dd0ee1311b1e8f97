-- ===== src/Tests/Moves.antt =====
-- Pops, pushes and reorders of the small stack.
use stgit.Prelude.{
  Bool, true, false, refl, arith, [], ◌∷◌, none, some, text_Eq, text_eq, text_eq_iff, count,
  contains, ◌==◌, lookup,
}
use stgit.Patch.Name.{PatchName}
use stgit.Stack.Transaction.Defs.{has_patch}
use stgit.Stack.Transaction.Ends.{Ends}
use stgit.Stack.Transaction.Lists.{pop_patches, delete_patches}
use stgit.Stack.Transaction.Effects.{Pops, pop_patches-Pops, Deletes, delete_patches-Deletes}
use stgit.Stack.Transaction.Push.{push_patch, push_patches}
use stgit.Stack.Transaction.Push.Outcome.{Pushes, push_patch-Ends}
use stgit.Stack.Transaction.Push.Loop.{Pushable, PushesAll}
use stgit.Stack.Transaction.Push.Merged.{push_patches-Ends}
use stgit.Stack.Transaction.Reorder.{reorder_patches, hide_patches, unhide_patches}
use stgit.Stack.Transaction.Reorder.Whole.{Arranges, Covers, reorder_patches-Ends}
use stgit.Stack.Transaction.Reorder.Hidden.{
  Hideable, Unhideable, hide_patches-Ends, unhide_patches-Ends,
}
use stgit.Tests.Data.{quiet, trans, trans-IsConsistent, a, b, c, d, e}

abbrev is_a : PatchName → Bool
is_a pn = pn == a

pop_patches-Pops_example : Ends (pop_patches quiet is_a) trans (Pops is_a trans)
pop_patches-Pops_example = pop_patches-Pops quiet is_a trans trans-IsConsistent

delete_patches-Deletes_example : Ends (delete_patches quiet is_a) trans (Deletes is_a trans)
delete_patches-Deletes_example = delete_patches-Deletes quiet is_a trans trans-IsConsistent

names_Pushable : Pushable trans (c ∷ e ∷ [])
unfolding has_patch lookup count
names_Pushable = record {
  counted = λ x. ground (
    arith,
    text_eq_iff x a,
    text_eq_iff a x,
    text_eq_iff x b,
    text_eq_iff b x,
    text_eq_iff x c,
    text_eq_iff c x,
    text_eq_iff x e,
    text_eq_iff e x,
    text_eq_iff d x,
  );
}

push_patch-Ends_example : Ends (push_patch quiet c false true none) trans (Pushes c trans)
unfolding has_patch lookup text_eq
push_patch-Ends_example = push_patch-Ends quiet c false true none trans trans-IsConsistent refl

push_patches-Ends_example :
    Ends (push_patches quiet (c ∷ e ∷ []) true) trans (PushesAll (c ∷ e ∷ []) trans)
push_patches-Ends_example =
    push_patches-Ends quiet (c ∷ e ∷ []) true trans trans-IsConsistent names_Pushable

lists_Covers : Covers (b ∷ d ∷ []) (a ∷ c ∷ []) (e ∷ []) trans
unfolding has_patch lookup count
lists_Covers = record {
  covered = λ x. ground (
    arith,
    text_eq_iff x a,
    text_eq_iff a x,
    text_eq_iff x b,
    text_eq_iff b x,
    text_eq_iff x c,
    text_eq_iff c x,
    text_eq_iff x d,
    text_eq_iff d x,
    text_eq_iff x e,
    text_eq_iff e x,
  );
}

reorder_patches-Ends_example :
    Ends
      (reorder_patches quiet (some (b ∷ d ∷ [])) (some (a ∷ c ∷ [])) (some (e ∷ [])))
      trans
      (Arranges (b ∷ d ∷ []) (a ∷ c ∷ []) (e ∷ []) trans)
reorder_patches-Ends_example =
    reorder_patches-Ends quiet (some (b ∷ d ∷ [])) (some (a ∷ c ∷ [])) (some (e ∷ [])) trans
      trans-IsConsistent lists_Covers

names_Hideable : Hideable trans (a ∷ d ∷ [])
unfolding has_patch lookup count
names_Hideable = record {
  counted = λ x. ground (
    arith,
    text_eq_iff x a,
    text_eq_iff a x,
    text_eq_iff x d,
    text_eq_iff d x,
    text_eq_iff x e,
    text_eq_iff e x,
    text_eq_iff b x,
    text_eq_iff c x,
  );
}

hide_patches-Ends_example :
    Ends (hide_patches quiet (a ∷ d ∷ [])) trans (Arranges (b ∷ []) (c ∷ []) (a ∷ d ∷ e ∷ []) trans)
unfolding contains text_eq
hide_patches-Ends_example =
    hide_patches-Ends quiet (a ∷ d ∷ []) trans trans-IsConsistent names_Hideable

names_Unhideable : Unhideable trans (e ∷ [])
names_Unhideable = record { counted = λ x. ground arith }

unhide_patches-Ends_example :
    Ends (unhide_patches quiet (e ∷ [])) trans (Arranges (a ∷ b ∷ []) (c ∷ d ∷ e ∷ []) [] trans)
unfolding contains text_eq
unhide_patches-Ends_example =
    unhide_patches-Ends quiet (e ∷ []) trans trans-IsConsistent names_Unhideable
