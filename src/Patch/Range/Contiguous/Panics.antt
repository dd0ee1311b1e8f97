-- ===== src/Patch/Range/Contiguous/Panics.antt =====
-- The `expect`s, `unwrap`s and slices of `resolve_names_contiguous` of src/patch/range.rs.
use stgit.Prelude.{
  ℕ, zero, suc, ◌<◌, true, false, Option, none, some, List, [], ◌∷◌, ◌≡◌, refl, sym, ap, subst, ◌∙◌,
  arith, ◌⊎◌, inl, inr, Option-cases, is_some, length, get_elem?, position-lt, contains, ◌==◌, leb,
  text_Eq,
}
use stgit.Patch.Name.{PatchName}
use stgit.Patch.Outcome.{ok, ◌>>=◌, bind-ok, panics, bind-panics, ok-injective, map_err-panics}
use stgit.Patch.Spec.{PatchRange, RangeConstraint, location_constraint}
use stgit.Patch.Locator.{Libraries, unwrap-ok}
use stgit.Patch.Locator.Resolve.{resolve_name}
use stgit.Patch.Range.{Error, constrain, allowed_patches, allowed_position}
use stgit.Patch.Range.Contiguous.{
  Progress, check_contiguous, check_order, end_position, append_slice, append_fresh, append_single,
  contiguous_round, contiguous_loop, resolve_names_contiguous,
}
use stgit.Patch.Range.Selected.{constrain-allowed}
use stgit.Patch.Range.Agree.{begin_position-bound, open_end-le, check_order-ok}
use stgit.Patch.Range.Panics.{
  IsResolvable, AllResolvable, unwrap-panics, slice-some_of, push_all-panics, constrained-panics,
  resolve_bound-panics, allowed_position-panics, open_end-lt, begin_position-panics, bound-known,
}
use stgit.Stack.Access.{StackStateAccess}

-- A preceding range is known as soon as there is a next position.
abbrev IsTracked : Progress → Type 0
IsTracked p = is_some p.next_pos ≡ true → is_some p.prev_range ≡ true

get_elem?-some : (xs : List PatchName) (i : ℕ) → i < length xs → is_some (get_elem? xs i) ≡ true
get_elem?-some [] i h = absurd (omega arith)
get_elem?-some (x ∷ xs) zero h = refl
get_elem?-some (x ∷ xs) (suc i) h = get_elem?-some xs i (omega arith)

module _ (lib : Libraries) where
  check_contiguous-panics :
      (p : Progress) (item : PatchRange) (at : ℕ)
      → IsTracked p
      → panics (check_contiguous lib p item at) ≡ false
  unfolding check_contiguous ◌>>=◌
  check_contiguous-panics p item at t = elim (Option-cases p.prev_range) [
    | inl e ↦ elim (Option-cases p.next_pos) [
      | inl f ↦ ground (arith, f)
      | inr (n, f) ↦ absurd (ground (arith, t, e, f))
    ]
    | inr (r, e) ↦ ground (arith, e)
  ]

module _ (lib : Libraries) {S : Type 0} ⦃access : StackStateAccess S⦄ (s : S)
    (allow_range : RangeConstraint) where
  abbrev xs : List PatchName
  xs = allowed_patches lib s allow_range

  check_order-panics :
      (begin_pos : ℕ) (pn : PatchName) (end_pos : ℕ)
      → (begin_pos ≡ 0) ⊎ (begin_pos < length xs)
      → panics (check_order lib s allow_range begin_pos pn end_pos) ≡ false
  unfolding check_order ◌>>=◌
  check_order-panics begin_pos pn end_pos (inl z) = ground arith
  check_order-panics begin_pos pn end_pos (inr b) = ground (arith, get_elem?-some xs begin_pos b)

  end_position-panics :
      (begin_pos : ℕ) (end : Option PatchName)
      → (begin_pos ≡ 0) ⊎ (begin_pos < length xs)
      → ((pn : PatchName) → end ≡ some pn → contains xs pn ≡ true)
      → panics (end_position lib s allow_range begin_pos end) ≡ false
  unfolding end_position
  end_position-panics begin_pos (some pn) b known =
      bind-panics _ _ (allowed_position-panics lib s allow_range pn (known pn refl))
        λ end_pos e. check_order-panics begin_pos pn end_pos b
  end_position-panics begin_pos none b known = refl

  -- A checked end lies behind the beginning, within the allowed patches.
  end_position-bounds :
      (begin_pos : ℕ) (end : Option PatchName) (e : ℕ)
      → (begin_pos ≡ 0) ⊎ (begin_pos < length xs)
      → end_position lib s allow_range begin_pos end ≡ ok (some e)
      → (leb begin_pos e ≡ true) × (e < length xs)
  unfolding end_position allowed_position
  end_position-bounds begin_pos (some pn) e b h =
      let (at, h0, h1) = bind-ok _ _ (some e) h in
      let (same, le) = check_order-ok lib s allow_range begin_pos pn at (some e) h1 in
      let lt = position-lt (λ x. x == pn) xs at (unwrap-ok _ at h0) in (ground arith, ground arith)
  end_position-bounds begin_pos none e b h =
      let f = ok-injective h in
      (open_end-le lib s allow_range begin_pos e b f, open_end-lt lib s allow_range begin_pos e f)

  append_slice-panics :
      (p : Progress) (item : PatchRange) (begin_pos : ℕ) (end_pos : Option ℕ)
      → ((e : ℕ) → end_pos ≡ some e → (leb begin_pos e ≡ true) × (e < length xs))
      → panics (append_slice lib s allow_range p item begin_pos end_pos) ≡ false
  unfolding append_slice
  append_slice-panics p item begin_pos none b = refl
  append_slice-panics p item begin_pos (some e) b =
      let (le, lt) = b e refl in
      bind-panics _ _ (unwrap-panics _ _ (slice-some_of begin_pos e xs lt (ground arith)))
        λ names h0. bind-panics _ _ (push_all-panics lib p.patches names) λ pushed h1. refl

  append_fresh-panics :
      (p : Progress) (item : PatchRange) (pn : PatchName)
      → IsTracked p
      → contains xs pn ≡ true
      → panics (append_fresh lib s allow_range p item pn) ≡ false
  unfolding append_fresh
  append_fresh-panics p item pn t known =
      bind-panics _ _ (allowed_position-panics lib s allow_range pn known)
        λ at h0. bind-panics _ _ (check_contiguous-panics lib p item at t) λ u h1. refl

  append_single-panics :
      (p : Progress) (item : PatchRange) (pn : PatchName)
      → IsTracked p
      → contains xs pn ≡ true
      → panics (append_single lib s allow_range p item pn) ≡ false
  unfolding append_single
  append_single-panics p item pn t known = ground (arith, append_fresh-panics p item pn t known)

  constrained-known :
      (resolved pn : PatchName)
      → constrain lib s resolved (location_constraint allow_range) ≡ ok pn
      → contains xs pn ≡ true
  constrained-known resolved pn h =
      let (e, known) = constrain-allowed lib s resolved pn (location_constraint allow_range) h in
      subst (λ n. contains xs n ≡ true) (sym e) known

  contiguous_round-panics :
      (p : Progress) (item : PatchRange)
      → IsTracked p
      → IsResolvable lib s item
      → panics (contiguous_round lib s allow_range p item) ≡ false
  unfolding contiguous_round
  contiguous_round-panics p (PatchRange.range bounds) t (r0, r1) =
      bind-panics _ _ (resolve_bound-panics lib s allow_range bounds.begin r0).0 λ begin h0.
        bind-panics _ _ (resolve_bound-panics lib s allow_range bounds.end r1).0 λ end h1.
          bind-panics _ _
            (begin_position-panics lib s allow_range begin
              (bound-known lib s allow_range bounds.begin begin r0 h0))
            λ begin_pos h2.
              let b = begin_position-bound lib s allow_range begin begin_pos h2 in
              bind-panics _ _ (check_contiguous-panics lib p (PatchRange.range bounds) begin_pos t)
                λ u h3.
                  bind-panics _ _
                    (end_position-panics begin_pos end b
                      (bound-known lib s allow_range bounds.end end r1 h1))
                    λ end_pos h4.
                      append_slice-panics p (PatchRange.range bounds) begin_pos end_pos
                        (λ e f. end_position-bounds begin_pos end e b (h4 ∙ ap ok f))
  contiguous_round-panics p (PatchRange.single loc) t r =
      bind-panics _ _ (map_err-panics Error.locator (resolve_name lib s loc) ∙ r) λ resolved h0.
        bind-panics _ _ (constrained-panics lib s allow_range loc resolved h0) λ pn h1.
          append_single-panics p (PatchRange.single loc) pn t (constrained-known resolved pn h1)

  append_slice-IsTracked :
      (p q : Progress) (item : PatchRange) (begin_pos : ℕ) (end_pos : Option ℕ)
      → IsTracked p
      → append_slice lib s allow_range p item begin_pos end_pos ≡ ok q
      → IsTracked q
  unfolding append_slice
  append_slice-IsTracked p q item begin_pos none t h = subst IsTracked (ok-injective h) t
  append_slice-IsTracked p q item begin_pos (some e) t h =
      let (names, h0, h1) = bind-ok _ _ q h in
      let (pushed, h2, h3) = bind-ok _ _ q h1 in subst IsTracked (ok-injective h3) (λ n. refl)

  append_single-IsTracked :
      (p q : Progress) (item : PatchRange) (pn : PatchName)
      → append_single lib s allow_range p item pn ≡ ok q
      → IsTracked q
  unfolding append_single append_fresh
  append_single-IsTracked p q item pn h =
      let fresh : append_fresh lib s allow_range p item pn ≡ ok q = ground arith in
      let (at, h0, h1) = bind-ok _ _ q fresh in
      let (u, h2, h3) = bind-ok _ _ q h1 in subst IsTracked (ok-injective h3) (λ n. refl)

  contiguous_round-IsTracked :
      (p q : Progress) (item : PatchRange)
      → IsTracked p
      → contiguous_round lib s allow_range p item ≡ ok q
      → IsTracked q
  unfolding contiguous_round
  contiguous_round-IsTracked p q (PatchRange.range bounds) t h =
      let (begin, h0, h1) = bind-ok _ _ q h in
      let (end, h2, h3) = bind-ok _ _ q h1 in
      let (begin_pos, h4, h5) = bind-ok _ _ q h3 in
      let (u, h6, h7) = bind-ok _ _ q h5 in
      let (end_pos, h8, h9) = bind-ok _ _ q h7 in
      append_slice-IsTracked p q (PatchRange.range bounds) begin_pos end_pos t h9
  contiguous_round-IsTracked p q (PatchRange.single loc) t h =
      let (resolved, h0, h1) = bind-ok _ _ q h in
      let (pn, h2, h3) = bind-ok _ _ q h1 in
      append_single-IsTracked p q (PatchRange.single loc) pn h3

  contiguous_loop-panics :
      (p : Progress) (ranges : List PatchRange)
      → IsTracked p
      → AllResolvable lib s ranges
      → panics (contiguous_loop lib s allow_range p ranges) ≡ false
  unfolding contiguous_loop
  contiguous_loop-panics p [] t r = refl
  contiguous_loop-panics p (item ∷ more) t (r, rs) =
      bind-panics _ _ (contiguous_round-panics p item t r)
        λ q h. contiguous_loop-panics q more (contiguous_round-IsTracked p q item t h) rs

  -- If the resolution of no locator in the ranges panics, `resolve_names_contiguous` does not
  -- panic: besides the positions and the slices, the preceding range is known wherever an error
  -- names it.
  pub resolve_names_contiguous-panics :
      (ranges : List PatchRange)
      → AllResolvable lib s ranges
      → panics (resolve_names_contiguous lib s allow_range ranges) ≡ false
  unfolding resolve_names_contiguous
  resolve_names_contiguous-panics ranges r =
      contiguous_loop-panics (record { patches = []; next_pos = none; prev_range = none }) ranges
        (λ h. cc) r
