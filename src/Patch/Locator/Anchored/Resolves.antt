-- ===== src/Patch/Locator/Anchored/Resolves.antt =====
-- How `resolve_name` of src/patch/locator.rs resolves locators from the top, the base or the last
-- patch.
use stgit.Prelude.{
  ℕ, ◌-◌, ◌^◌, ◌<◌, ◌≤◌, true, false, Option, none, some, List, [], ◌∷◌, ◌≡◌, refl, ap, ◌∙◌, arith,
  Bool-cases, inl, inr, is_empty, length, ltb, pos, negsuc, ◌+ℤ◌, negate,
}
use stgit.Patch.Outcome.{ok, err, ◌>>=◌, bind-to, bind-err}
use stgit.Patch.Spec.{PatchId, PatchOffsetAtom}
use stgit.Patch.Parse.Winnow.{IsWinnow}
use stgit.Patch.Parse.Offsets.{AreAtoms, format_atoms, patch_offset_atoms-format_atoms}
use stgit.Patch.Locator
use stgit.Patch.Locator.{
  Libraries, DisambiguatedId, or_one, moved, position_in, unwrap, ok_or, neg, add,
}
use stgit.Patch.Locator.Resolve.{
  resolve_name, disambiguate, disambiguate_id, start_index, atoms, string_for_error, within,
}
use stgit.Patch.Locator.Moves.{patch_after, walk-patch_at}
use stgit.Stack.Access.{StackStateAccess, all_patches, applied_and_unapplied}
use stgit.Patch.Locator.{DisambiguatedLocator}
use stgit.Patch.Locator.Anchored.{
  from_base, from_below, anchored, IsAnchor, untold, untold-ok_or, position-below,
  format_atoms-cons, walk-from_base,
}
use stgit.Patch.Locator.Anchored.Starts.{
  nonempty-length, empty-length, applied-fits, visible-fits, from_top-start, from_top-start_base,
  from_last-start, below_top-known, below_last-known, last-known, top-known, top-known_base,
  top-start,
}

module _ (lib : Libraries) {S : Type 0} ⦃access : StackStateAccess S⦄ (s : S)
    (law : IsWinnow lib.winnow) (id : PatchId) (id' : DisambiguatedId lib.Prefix)
    (steps : List PatchOffsetAtom) (v : AreAtoms steps) (fits : length (all_patches s) ≤ 2 ^ 63)
    (known : disambiguate lib s (record { id = id; offsets = format_atoms steps })
      ≡ ok (record { id = id'; offsets = format_atoms steps })) where
  resolved-err :
      (e : Locator.Error lib.Prefix)
      → start_index lib s id' (format_atoms steps) ≡ err e
      → untold (resolve_name lib s (record { id = id; offsets = format_atoms steps })) ≡ err tt
  unfolding resolve_name
  resolved-err e h = ap untold (bind-to _ _ _ _ known (bind-err _ _ e h))

  resolved-at :
      (i : ℕ)
      → start_index lib s id' (format_atoms steps) ≡ ok (pos i)
      → i < length (all_patches s)
      → untold (resolve_name lib s (record { id = id; offsets = format_atoms steps }))
        ≡ ok_or tt (patch_after (all_patches s) i steps)
  unfolding resolve_name atoms
  resolved-at i h k =
      ap untold (
        bind-to _ _ _ _ known (
          bind-to _ _ (pos i) _ h (
            bind-to _ _ steps _
              (rw (patch_offset_atoms-format_atoms lib.winnow law steps v, atoms) refl)
              (walk-patch_at lib s i _ steps k fits))))
      ∙ untold-ok_or _ (patch_after (all_patches s) i steps)

  -- A start that is `below` the last of some patches, or outside the stack.
  resolved-below :
      (some_count below : ℕ)
      → start_index lib s id' (format_atoms steps)
        ≡ within lib s id' (pos (some_count - 1) +ℤ negate (pos below))
      → some_count ≤ length (all_patches s)
      → 0 < some_count
      → untold (resolve_name lib s (record { id = id; offsets = format_atoms steps }))
        ≡ ok_or tt (from_below (all_patches s) some_count below steps)
  unfolding within ◌>>=◌
  resolved-below some_count below h k l =
      let there = position-below (length (all_patches s)) some_count below k l in
      elim (Bool-cases (ltb below some_count)) [
        | inl y ↦
            rw y
              (resolved-at (some_count - below - 1) (h ∙ (rw (there, y) refl)) (ground (arith, y)))
        | inr n ↦ rw n (
            resolved-err (Locator.Error.invalid_offset_from (string_for_error lib id'))
              (h ∙ (rw (there, n) refl)))
      ]

module _ (lib : Libraries) {S : Type 0} ⦃access : StackStateAccess S⦄ (s : S)
    (law : IsWinnow lib.winnow) (id : PatchId) (fits : length (all_patches s) ≤ 2 ^ 63) where
  resolved-base :
      (steps : List PatchOffsetAtom)
      → AreAtoms steps
      → disambiguate lib s (record { id = id; offsets = format_atoms steps })
        ≡ ok (record { id = DisambiguatedId.base; offsets = format_atoms steps })
      → untold (resolve_name lib s (record { id = id; offsets = format_atoms steps }))
        ≡ ok_or tt (from_base (all_patches s) steps)
  unfolding resolve_name atoms start_index format_atoms
  resolved-base [] v known =
      resolved-err lib s law id DisambiguatedId.base [] v fits known Locator.Error.base_needs_offset
        refl
  resolved-base (atom ∷ more) v known =
      ap untold (
        bind-to _ _ _ _ known (
          bind-to _ _ (negsuc 0) _ (rw (start_index, format_atoms-cons atom more) refl) (
            bind-to _ _ (atom ∷ more) _
              (rw (patch_offset_atoms-format_atoms lib.winnow law (atom ∷ more) v, atoms) refl)
              refl)))
      ∙ walk-from_base lib s _ atom more fits

module _ (lib : Libraries) {S : Type 0} ⦃access : StackStateAccess S⦄ (s : S) where
  resolved-top :
      IsWinnow lib.winnow
      → (steps : List PatchOffsetAtom) → length (all_patches s) < 2 ^ 63
      → AreAtoms steps
      → untold (resolve_name lib s (record { id = PatchId.top; offsets = format_atoms steps }))
        ≡ ok_or tt (anchored s PatchId.top steps)
  resolved-top law steps fits v = elim (Bool-cases (is_empty (access.applied s))) [
    | inl y ↦ rw y (
        resolved-base lib s law PatchId.top (omega (arith, fits)) steps v
          (top-known_base lib s (format_atoms steps) y))
    | inr n ↦
        let there = nonempty-length (access.applied s) n in
        let below : ltb 0 (length (access.applied s)) ≡ true = ground (arith, there) in
        rw (n, below)
          (resolved-at lib s law PatchId.top DisambiguatedId.top steps v (omega (arith, fits))
            (top-known lib s (format_atoms steps) n) (length (access.applied s) - 0 - 1)
            (top-start lib s (format_atoms steps) there)
            (omega (arith, there, (applied-fits lib s))))
  ]

  resolved-below_top :
      IsWinnow lib.winnow
      → (n : Option ℕ) (steps : List PatchOffsetAtom) → or_one n < 2 ^ 63
      → length (all_patches s) < 2 ^ 63
      → AreAtoms steps
      → untold
          (resolve_name lib s (record { id = PatchId.below_top n; offsets = format_atoms steps }))
        ≡ ok_or tt (anchored s (PatchId.below_top n) steps)
  resolved-below_top law n steps a fits v =
      let id' : DisambiguatedId lib.Prefix = DisambiguatedId.from_top (negate (pos (or_one n))) in
      let known = below_top-known lib s n (format_atoms steps) a in
      elim (Bool-cases (is_empty (access.applied s))) [
        | inl y ↦
            let nothing : length (access.applied s) ≡ 0 = empty-length (access.applied s) y in
            let outside : ltb (or_one n) (length (access.applied s)) ≡ false =
              ground (arith, nothing) in
            rw outside (
              resolved-err lib s law (PatchId.below_top n) id' steps v (omega (arith, fits)) known
                (Locator.Error.invalid_offset_from (string_for_error lib id'))
                (from_top-start_base lib s (or_one n) (format_atoms steps) nothing a))
        | inr e ↦
            let there = nonempty-length (access.applied s) e in
            resolved-below lib s law (PatchId.below_top n) id' steps v (omega (arith, fits)) known
              (length (access.applied s)) (or_one n)
              (from_top-start lib s (or_one n) (format_atoms steps) there
                (omega (arith, fits, (applied-fits lib s))) a)
              (applied-fits lib s) there
      ]

  -- Where the parser combinators keep their documented equations, the stack has fewer than 2^63
  -- patches and the numbers of the offset atoms and of the locator are less than 2^63, a locator of
  -- the top, of the base, of a number below the top or, where some patch is not hidden, of a number
  -- (not negative) below the last patch that is not hidden, followed by the atoms in print,
  -- resolves to the patch that the atoms lead to from there, one after the other, and to an error
  -- where the start or one of the atoms is outside the stack. The top is the last applied patch, or
  -- the base where none is applied; from the base the first atom has to step up, one step leading
  -- to the first patch. Which error it is is left open.
  pub resolve_name-anchored :
      IsWinnow lib.winnow
      → (id : PatchId) (steps : List PatchOffsetAtom) → IsAnchor s id
      → length (all_patches s) < 2 ^ 63
      → AreAtoms steps
      → untold (resolve_name lib s (record { id = id; offsets = format_atoms steps }))
        ≡ ok_or tt (anchored s id steps)
  unfolding disambiguate disambiguate_id
  resolve_name-anchored law PatchId.base steps a fits v =
      resolved-base lib s law PatchId.base (omega (arith, fits)) steps v refl
  resolve_name-anchored law PatchId.top steps a fits v = resolved-top law steps fits v
  resolve_name-anchored law (PatchId.below_top n) steps a fits v =
      resolved-below_top law n steps a fits v
  resolve_name-anchored law (PatchId.below_last none) steps a fits v =
      resolved-below lib s law (PatchId.below_last none)
        (DisambiguatedId.from_last (negate (pos 0))) steps v (omega (arith, fits))
        (last-known lib s (format_atoms steps)) (length (applied_and_unapplied s)) 0
        (from_last-start lib s 0 (format_atoms steps) a) (visible-fits lib s) a
  resolve_name-anchored law (PatchId.below_last (some (pos n))) steps (a, b) fits v =
      resolved-below lib s law (PatchId.below_last (some (pos n)))
        (DisambiguatedId.from_last (negate (pos n))) steps v (omega (arith, fits))
        (below_last-known lib s n (format_atoms steps) a) (length (applied_and_unapplied s)) n
        (from_last-start lib s n (format_atoms steps) b) (visible-fits lib s) b
  resolve_name-anchored law (PatchId.below_last (some (negsuc n))) steps a fits v = absurd a
  resolve_name-anchored law (PatchId.name pn) steps a fits v = absurd a
