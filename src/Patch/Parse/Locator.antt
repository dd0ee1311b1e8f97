-- ===== src/Patch/Parse/Locator.antt =====
-- src/patch/parse/locator.rs and src/patch/parse/range.rs. The type of commit id prefixes and the
-- reading of one are parameters: they are of the gix library.
use stgit.Prelude.{Text, ℕ, Option, none, some, List, codes, unsigned_abs}
use stgit.Patch.Spec.{
  PatchId, PatchLocator, PatchOffsets, PatchOffsetAtom, PatchRange, PatchRangeBounds,
}
use stgit.Patch.Parse.Winnow.{Winnow, Parser}
use stgit.Patch.Parse.Name.{patch_name}
use stgit.Patch.Parse.Numbers.{
  Sign, sign, unsigned_int, negative_int, plusative_int, nonplussed_int,
}

module _ (w : Winnow) where
  unfoldable pub patch_offset_atom_plus : Parser PatchOffsetAtom
  patch_offset_atom_plus =
      w.map (λ p. PatchOffsetAtom.plus p.1)
        (w.pair (w.literal (codes "+")) (w.opt (unsigned_int w)))

  unfoldable pub patch_offset_atom_tilde : Parser PatchOffsetAtom
  patch_offset_atom_tilde =
      w.map (λ p. PatchOffsetAtom.tilde p.1)
        (w.pair (w.literal (codes "~")) (w.opt (unsigned_int w)))

  unfoldable pub patch_offset_atom : Parser PatchOffsetAtom
  unfolding patch_offset_atom_plus patch_offset_atom_tilde
  patch_offset_atom = w.alt patch_offset_atom_plus patch_offset_atom_tilde

  unfoldable pub patch_offset_atoms : Parser (List PatchOffsetAtom)
  patch_offset_atoms = w.repeat patch_offset_atom

  unfoldable pub patch_offsets : Parser PatchOffsets
  patch_offsets = w.recognize (w.repeat patch_offset_atom)

  unfoldable pub patch_locator_name : Parser PatchLocator
  patch_locator_name =
      w.map (λ p. record { id = PatchId.name p.0; offsets = p.1 }) (w.pair patch_name patch_offsets)

  unfoldable pub patch_locator_from_last : Parser PatchLocator
  patch_locator_from_last =
      w.map (λ p. record { id = PatchId.below_last p.1.0; offsets = p.1.1 })
        (w.pair (w.literal (codes "^")) (w.pair (w.opt (nonplussed_int w)) patch_offsets))

  unfoldable pub patch_locator_top : Parser PatchLocator
  patch_locator_top =
      w.alt
        (w.map (λ p. record { id = PatchId.top; offsets = p.1 })
          (w.pair (w.literal (codes "@")) patch_offsets))
        (w.map (λ p. record { id = PatchId.below_top p.1.0; offsets = p.1.1 })
          (w.pair (w.literal (codes "~")) (w.pair (w.opt (unsigned_int w)) patch_offsets)))

  unfoldable pub patch_locator_base : Parser PatchLocator
  patch_locator_base =
      w.map (λ p. record { id = PatchId.base; offsets = p.1 })
        (w.pair (w.literal (codes "{base}")) patch_offsets)

  unfoldable pub patch_locator : Parser PatchLocator
  unfolding patch_locator_name patch_locator_from_last patch_locator_top patch_locator_base
  patch_locator =
      w.alt patch_locator_name
        (w.alt patch_locator_from_last (w.alt patch_locator_top patch_locator_base))

  unfoldable pub sign_number_offsets : Parser (Option Sign × Option ℕ × PatchOffsets)
  sign_number_offsets =
      w.alt
        (w.map (λ p. (some Sign.minus, some (unsigned_abs p.0), p.1))
          (w.pair (negative_int w) patch_offsets))
        (w.alt
          (w.map (λ p. (some Sign.plus, some (unsigned_abs p.0), p.1))
            (w.pair (plusative_int w) patch_offsets))
          (w.alt (w.map (λ p. (none, some p.0, p.1)) (w.pair (unsigned_int w) patch_offsets))
            (w.map (λ p. (some p.0, none, p.1)) (w.pair (sign w) patch_offsets))))

  module _ {Prefix : Type 0} (from_hex : Text → Option Prefix) where
    unfoldable pub oid_prefix : Parser Prefix
    oid_prefix = w.try_map from_hex w.hex_digit1

    unfoldable pub oid_prefix_offsets : Parser (Prefix × PatchOffsets)
    oid_prefix_offsets = w.pair oid_prefix patch_offsets

  unfoldable pub patch_range_bounds : Parser PatchRangeBounds
  patch_range_bounds =
      w.map (λ p. record { begin = p.0; end = p.1.1 })
        (w.pair (w.opt patch_locator) (w.pair (w.literal (codes "..")) (w.opt patch_locator)))

  unfoldable pub patch_range : Parser PatchRange
  patch_range =
      w.alt (w.map PatchRange.range patch_range_bounds) (w.map PatchRange.single patch_locator)
