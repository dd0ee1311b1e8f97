-- ===== src/Tests/Locators.antt =====
-- Locators and ranges resolved on a small stack.
use stgit.Prelude.{
  Text, ℕ, false, none, some, List, [], ◌∷◌, ◌≡◌, refl, ap, arith, take, drop, head?, get_last?,
  contains, text_Eq, text_eq, lookup, position,
}
use stgit.Patch.Outcome.{ok, ◌>>=◌, panics, bind-to, map_err}
use stgit.Patch.Name.{PatchName}
use stgit.Patch.Spec.{
  PatchId, PatchLocator, PatchOffsetAtom, PatchRange, RangeConstraint, location_constraint,
  use_applied_boundary,
}
use stgit.Patch.Parse.Offsets.{format_atoms}
use stgit.Patch.Locator
use stgit.Patch.Locator.{Libraries, DisambiguatedId, ok_or}
use stgit.Patch.Locator.Resolve.{resolve_name, string_for_error}
use stgit.Patch.Locator.Anchored.{anchored, untold}
use stgit.Patch.Locator.Anchored.Resolves.{resolve_name-anchored}
use stgit.Patch.Locator.Moves.{patch_after, position_after, resolve_name-moves}
use stgit.Patch.Range.{
  Error, takes, check_group, constrain, resolve_names, resolve_bound, begin_position, push_range,
  push_selected, push_all, push_one, selected, slice, allowed_position, open_end,
}
use stgit.Patch.Range.Contiguous.{
  resolve_names_contiguous, check_contiguous, end_position, append_slice,
}
use stgit.Patch.Range.Selected.{IsSelection, resolve_names-Selection}
use stgit.Patch.Range.Slices.{resolve_names_contiguous-slice}
use stgit.Patch.Range.Agree.{resolve_names-agree}
use stgit.Patch.Range.Panics.{AllResolvable, resolve_names-panics}
use stgit.Patch.Range.Contiguous.Panics.{resolve_names_contiguous-panics}
use stgit.Stack.State.{stack_access}
use stgit.Stack.Access.{LocationConstraint, location_group, all_patches, index_of, get_allowed}
use stgit.Tests.Data.{stack, a, b, c, d}
use stgit.Tests.Parsers.{plain_winnow, plain_law}

abbrev pub lib : Libraries
lib = record {
  winnow = plain_winnow;
  Prefix = Text;
  from_hex = λ s. some s;
  cmp_oid = λ prefix id. false;
  format_prefix = λ prefix. prefix;
  is_similar = λ x y. false;
}

abbrev pub b_steps : List PatchOffsetAtom
b_steps = PatchOffsetAtom.plus (some 2) ∷ PatchOffsetAtom.tilde none ∷ []

-- `b+2~`
abbrev pub after_b : PatchLocator
after_b = record { id = PatchId.name b; offsets = format_atoms b_steps }

resolve_name-moves_example :
    resolve_name lib stack after_b
    ≡ ok_or
        (Locator.Error.invalid_patch_offset
          (string_for_error lib (DisambiguatedId.name b))
          (format_atoms b_steps))
        (patch_after (all_patches stack) 1 b_steps)
unfolding index_of position text_eq lookup
resolve_name-moves_example =
    resolve_name-moves lib stack plain_law b 1 b_steps refl refl (omega arith)
      (omega arith, (tt, tt))

abbrev plain : PatchName → PatchLocator
plain pn = record { id = PatchId.name pn; offsets = [] }

b_resolves : resolve_name lib stack (plain b) ≡ ok b
unfolding index_of position text_eq lookup position_after format_atoms
b_resolves = resolve_name-moves lib stack plain_law b 1 [] refl refl (omega arith) tt

after_b_resolves : resolve_name lib stack after_b ≡ ok c
unfolding index_of position text_eq lookup position_after
after_b_resolves = resolve_name-moves_example

-- `^+2`
abbrev above_second : PatchLocator
above_second = record {
  id = PatchId.below_top none;
  offsets = format_atoms (PatchOffsetAtom.plus (some 2) ∷ []);
}

resolve_name-anchored_example :
    untold (resolve_name lib stack above_second)
    ≡ ok_or tt (anchored stack (PatchId.below_top none) (PatchOffsetAtom.plus (some 2) ∷ []))
resolve_name-anchored_example =
    resolve_name-anchored lib stack plain_law (PatchId.below_top none)
      (PatchOffsetAtom.plus (some 2) ∷ []) (omega arith) (omega arith) (omega arith, tt)

above_second_resolves : untold (resolve_name lib stack above_second) ≡ ok c
unfolding position_after
above_second_resolves = resolve_name-anchored_example

-- `b..b+2~ a`
abbrev two_ranges : List PatchRange
two_ranges =
    PatchRange.range (record { begin = some (plain b); end = some after_b })
    ∷ PatchRange.single (plain a)
    ∷ []

-- `b..b+2~ b+2~..`
abbrev joined_ranges : List PatchRange
joined_ranges =
    PatchRange.range (record { begin = some (plain b); end = some (plain b) })
    ∷ PatchRange.range (record { begin = some after_b; end = none })
    ∷ []

a_resolves : resolve_name lib stack (plain a) ≡ ok a
unfolding index_of position text_eq lookup position_after format_atoms
a_resolves = resolve_name-moves lib stack plain_law a 0 [] refl refl (omega arith) tt

a_allowed : constrain lib stack a LocationConstraint.visible ≡ ok a
unfolding constrain check_group takes location_group contains text_eq ◌>>=◌
a_allowed = refl

b_allowed : constrain lib stack b LocationConstraint.visible ≡ ok b
unfolding constrain check_group takes location_group contains text_eq ◌>>=◌
b_allowed = refl

c_allowed : constrain lib stack c LocationConstraint.visible ≡ ok c
unfolding constrain check_group takes location_group contains text_eq ◌>>=◌
c_allowed = refl

bound_found :
    (loc : PatchLocator) (pn : PatchName)
    → resolve_name lib stack loc ≡ ok pn
    → constrain lib stack pn LocationConstraint.visible ≡ ok pn
    → resolve_bound lib stack RangeConstraint.visible (some loc) ≡ ok (some pn)
unfolding resolve_bound location_constraint
bound_found loc pn h k = bind-to _ _ pn _ (ap (map_err Error.locator) h) (bind-to _ _ pn _ k refl)

two_resolve : resolve_names lib stack RangeConstraint.visible two_ranges ≡ ok (b ∷ c ∷ a ∷ [])
unfolding resolve_names begin_position push_range push_selected push_all push_one selected slice
    allowed_position contains get_allowed location_constraint position text_eq ◌>>=◌
two_resolve =
    bind-to _ _ (b ∷ c ∷ []) _
      (bind-to _ _ (some b) _ (bound_found (plain b) b b_resolves b_allowed)
        (bind-to _ _ (some c) _ (bound_found after_b c after_b_resolves c_allowed) refl))
      (bind-to _ _ (b ∷ c ∷ a ∷ []) _
        (bind-to _ _ a _ (ap (map_err Error.locator) a_resolves) (bind-to _ _ a _ a_allowed refl))
        refl)

joined_resolve :
    resolve_names_contiguous lib stack RangeConstraint.visible joined_ranges ≡ ok (b ∷ c ∷ d ∷ [])
unfolding resolve_names_contiguous begin_position check_contiguous end_position append_slice
    push_all slice allowed_position contains open_end use_applied_boundary get_allowed
    location_constraint position text_eq ◌>>=◌
joined_resolve =
    bind-to _ _ (record { patches = b ∷ []; next_pos = some 2; prev_range = head? joined_ranges }) _
      (bind-to _ _ (some b) _ (bound_found (plain b) b b_resolves b_allowed)
        (bind-to _ _ (some b) _ (bound_found (plain b) b b_resolves b_allowed) refl))
      (bind-to _ _
        (record {
          patches = b ∷ c ∷ d ∷ [];
          next_pos = some 4;
          prev_range = get_last? joined_ranges;
        })
        _ (bind-to _ _ (some c) _ (bound_found after_b c after_b_resolves c_allowed) refl) refl)

resolve_names-Selection_example :
    IsSelection (get_allowed stack (location_constraint RangeConstraint.visible)) (b ∷ c ∷ a ∷ [])
resolve_names-Selection_example =
    resolve_names-Selection lib stack RangeConstraint.visible two_ranges (b ∷ c ∷ a ∷ [])
      two_resolve

resolve_names_contiguous-slice_example :
    (start : ℕ) × (b ∷ c ∷ d ∷ []
      ≡ take 3 (drop start (get_allowed stack (location_constraint RangeConstraint.visible))))
resolve_names_contiguous-slice_example =
    resolve_names_contiguous-slice lib stack RangeConstraint.visible joined_ranges (b ∷ c ∷ d ∷ [])
      joined_resolve

resolve_names-agree_example :
    resolve_names lib stack RangeConstraint.visible joined_ranges ≡ ok (b ∷ c ∷ d ∷ [])
resolve_names-agree_example =
    resolve_names-agree lib stack RangeConstraint.visible joined_ranges (b ∷ c ∷ d ∷ [])
      joined_resolve

joined_resolvable : AllResolvable lib stack joined_ranges
joined_resolvable =
    ((ap panics b_resolves, ap panics b_resolves), ((ap panics after_b_resolves, tt), tt))

resolve_names-panics_example :
    panics (resolve_names lib stack RangeConstraint.visible joined_ranges) ≡ false
resolve_names-panics_example =
    resolve_names-panics lib stack RangeConstraint.visible joined_ranges joined_resolvable

resolve_names_contiguous-panics_example :
    panics (resolve_names_contiguous lib stack RangeConstraint.visible joined_ranges) ≡ false
resolve_names_contiguous-panics_example =
    resolve_names_contiguous-panics lib stack RangeConstraint.visible joined_ranges
      joined_resolvable
