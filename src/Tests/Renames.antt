-- ===== src/Tests/Renames.antt =====
-- A rename, an uncommit and repairs on the small stack.
use stgit.Prelude.{
  ◌+◌, ◌≤◌, ◌≡◌, Bool, true, false, contains, refl, arith, List, [], ◌∷◌, text_Eq, text_eq,
  text_eq_iff, count, one_if, lookup,
}
use stgit.Host.{ObjectId}
use stgit.Exec.{◌>>=◌, Result, err, panic}
use stgit.Patch.Name.{PatchName}
use stgit.Stack.Transaction.Defs.{has_patch, get, put, unwrap}
use stgit.Stack.Transaction.Ends.{Ends}
use stgit.Stack.Transaction.Names.{
  rename_patch, uncommit_patches, repair_appliedness, index_set_onto, shift_take_all,
}
use stgit.Stack.Transaction.Names.Repair.{Repairs, repair_appliedness-Repairs}
use stgit.Stack.Transaction.Names.Rename.{Renames, rename_patch-Renames}
use stgit.Stack.Transaction.Names.Uncommit.{Uncommits, uncommit_patches-Uncommits}
use stgit.Tests.Data.{quiet, trans, trans-IsConsistent, a, b, c, d, e, new_name}

rename_patch-Renames_example : Ends (rename_patch quiet c new_name) trans (Renames c new_name trans)
unfolding has_patch lookup text_eq
rename_patch-Renames_example =
    rename_patch-Renames quiet c new_name trans trans-IsConsistent refl refl refl

abbrev to_uncommit : List (PatchName × ObjectId)
to_uncommit = (new_name, 10) ∷ []

new_name-fresh : (x : PatchName) → count x (new_name ∷ []) + one_if (has_patch trans x) ≤ 1
unfolding has_patch lookup count
new_name-fresh x = ground (
  arith,
  text_eq_iff x new_name,
  text_eq_iff a x,
  text_eq_iff b x,
  text_eq_iff c x,
  text_eq_iff d x,
  text_eq_iff e x,
)

uncommit_patches-Uncommits_example :
    Ends (uncommit_patches quiet to_uncommit) trans (Uncommits (new_name ∷ []) trans)
uncommit_patches-Uncommits_example =
    uncommit_patches-Uncommits quiet to_uncommit trans trans-IsConsistent new_name-fresh

repair_appliedness-Repairs_example :
    Ends {W = Unit {0}}
      (repair_appliedness (b ∷ []) (c ∷ a ∷ d ∷ []) (e ∷ []))
      trans
      (Repairs (b ∷ []) (c ∷ a ∷ d ∷ []) (e ∷ []) trans)
repair_appliedness-Repairs_example =
    repair_appliedness-Repairs (b ∷ []) (c ∷ a ∷ d ∷ []) (e ∷ []) trans trans-IsConsistent

-- Patch `d` is missing: the last assertion fails.
abbrev is_panic : {A : Type 0} → Result A → Bool
is_panic (err panic) = true
is_panic _ = false

repair_misses_patch :
    is_panic
      (repair_appliedness
        (b ∷ [])
        (c ∷ a ∷ [])
        (e ∷ [])
        (record { trans = trans; world = tt {0} })).0
    ≡ true
unfolding repair_appliedness get put unwrap index_set_onto shift_take_all contains text_eq ◌>>=◌
repair_misses_patch = refl
