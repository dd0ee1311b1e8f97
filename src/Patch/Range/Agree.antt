-- ===== src/Patch/Range/Agree.antt =====
-- The two functions of src/patch/range.rs on the same ranges.
use stgit.Prelude.{
  ℕ, ◌<◌, true, Option, none, some, List, [], ◌∷◌, ◌≡◌, refl, ap, ◌∙◌, arith, ◌⊎◌, inl, inr,
  Bool-cases, Option-cases, length, get_elem?, subst, position-lt, contains, ◌==◌, leb, text_Eq,
}
use stgit.Patch.Name.{PatchName}
use stgit.Patch.Outcome.{ok, ◌>>=◌, bind-ok, bind-to, ok-injective}
use stgit.Patch.Spec.{PatchRange, RangeConstraint}
use stgit.Patch.Locator.{Libraries, unwrap, unwrap-ok}
use stgit.Patch.Range.{
  slice, push_one, allowed_patches, allowed_position, begin_position, open_end, selected,
  push_selected, push_range, resolve_round, resolve_loop, resolve_names,
}
use stgit.Patch.Range.Contiguous.{
  Progress, check_order, end_position, append_slice, append_fresh, append_single, contiguous_round,
  contiguous_loop, resolve_names_contiguous,
}
use stgit.Stack.Access.{StackStateAccess}

module _ (lib : Libraries) {S : Type 0} ⦃access : StackStateAccess S⦄ (s : S)
    (allow_range : RangeConstraint) where
  abbrev xs : List PatchName
  xs = allowed_patches lib s allow_range

  -- The first position of a range is one of the allowed patches, or the first.
  pub begin_position-bound :
      (begin : Option PatchName) (n : ℕ)
      → begin_position lib s allow_range begin ≡ ok n
      → (n ≡ 0) ⊎ (n < length xs)
  unfolding begin_position allowed_position
  begin_position-bound none n h = inl (ground arith)
  begin_position-bound (some pn) n h = inr (position-lt (λ x. x == pn) xs n (unwrap-ok _ n h))

  pub open_end-le :
      (n e : ℕ) → (n ≡ 0) ⊎ (n < length xs) → open_end lib s allow_range n ≡ some e → leb n e ≡ true
  unfolding open_end
  open_end-le n e (inl z) h = ground arith
  open_end-le n e (inr lt) h = ground arith

  selected-ordered :
      (begin_pos end_pos : ℕ)
      → leb begin_pos end_pos ≡ true
      → selected lib s allow_range begin_pos end_pos ≡ slice begin_pos end_pos xs
  unfolding selected
  selected-ordered begin_pos end_pos h = rw (h, selected) refl

  pub check_order-ok :
      (begin_pos : ℕ) (pn : PatchName) (end_pos : ℕ) (checked : Option ℕ)
      → check_order lib s allow_range begin_pos pn end_pos ≡ ok checked
      → (checked ≡ some end_pos) × (leb begin_pos end_pos ≡ true)
  unfolding check_order ◌>>=◌
  check_order-ok begin_pos pn end_pos checked h = elim (Option-cases (get_elem? xs begin_pos)) [
    | inl e ↦ (ground (arith, e), ground (arith, e))
    | inr (b, e) ↦ (ground (arith, e), ground (arith, e))
  ]

  push_selected-agree :
      (p q : Progress) (item : PatchRange) (begin_pos end_pos : ℕ)
      → leb begin_pos end_pos ≡ true
      → append_slice lib s allow_range p item begin_pos (some end_pos) ≡ ok q
      → push_selected lib s allow_range p.patches begin_pos end_pos ≡ ok q.patches
  unfolding append_slice push_selected selected
  push_selected-agree p q item begin_pos end_pos le h =
      let (names, h0, h1) = bind-ok _ _ q h in
      let (pushed, h2, h3) = bind-ok _ _ q h1 in
      let same : slice begin_pos end_pos xs ≡ some names = unwrap-ok _ names h0 in
      let e : pushed ≡ q.patches = ap (λ r. r.patches) (ok-injective h3) in
      bind-to _ _ names _ (ap unwrap (selected-ordered begin_pos end_pos le ∙ same)) (h2 ∙ ap ok e)

  push_open-agree :
      (p q : Progress) (item : PatchRange) (begin_pos : ℕ) (end_pos : Option ℕ)
      → (begin_pos ≡ 0) ⊎ (begin_pos < length xs)
      → open_end lib s allow_range begin_pos ≡ end_pos
      → append_slice lib s allow_range p item begin_pos end_pos ≡ ok q
      → push_range lib s allow_range p.patches begin_pos none ≡ ok q.patches
  unfolding push_range append_slice
  push_open-agree p q item begin_pos none b h k =
      rw (h, push_range) (ap (λ r. ok r.patches) (ok-injective k))
  push_open-agree p q item begin_pos (some e) b h k =
      rw (h, push_range) (push_selected-agree p q item begin_pos e (open_end-le begin_pos e b h) k)

  push_one-agree :
      (p q : Progress) (item : PatchRange) (pn : PatchName)
      → append_single lib s allow_range p item pn ≡ ok q
      → push_one lib p.patches pn ≡ ok q.patches
  unfolding append_single append_fresh push_one
  push_one-agree p q item pn h = elim (Bool-cases (contains p.patches pn)) [
    | inl y ↦ absurd (ground (arith, y, h))
    | inr n ↦
        let fresh : append_fresh lib s allow_range p item pn ≡ ok q = ground (arith, n, h) in
        let (at, h0, h1) = bind-ok _ _ q fresh in
        let (u, h2, h3) = bind-ok _ _ q h1 in
        rw (n, push_one) (ap (λ r. ok r.patches) (ok-injective h3))
  ]

  push_range-agree :
      (p q : Progress) (item : PatchRange) (begin_pos : ℕ) (end : Option PatchName)
      (end_pos : Option ℕ)
      → (begin_pos ≡ 0) ⊎ (begin_pos < length xs)
      → end_position lib s allow_range begin_pos end ≡ ok end_pos
      → append_slice lib s allow_range p item begin_pos end_pos ≡ ok q
      → push_range lib s allow_range p.patches begin_pos end ≡ ok q.patches
  unfolding push_range end_position
  push_range-agree p q item begin_pos (some pn) end_pos b h k =
      let (e, h0, h1) = bind-ok _ _ end_pos h in
      let (same, le) = check_order-ok begin_pos pn e end_pos h1 in
      bind-to _ _ e _ h0 (
        push_selected-agree p q item begin_pos e le
          (subst (λ o. append_slice lib s allow_range p item begin_pos o ≡ ok q) same k))
  push_range-agree p q item begin_pos none end_pos b h k =
      push_open-agree p q item begin_pos end_pos b (ok-injective h) k

  resolve_round-agree :
      (p q : Progress) (item : PatchRange)
      → contiguous_round lib s allow_range p item ≡ ok q
      → resolve_round lib s allow_range p.patches item ≡ ok q.patches
  unfolding contiguous_round resolve_round
  resolve_round-agree p q (PatchRange.range bounds) k =
      let (begin, h0, h1) = bind-ok _ _ q k in
      let (end, h2, h3) = bind-ok _ _ q h1 in
      let (begin_pos, h4, h5) = bind-ok _ _ q h3 in
      let (u, h6, h7) = bind-ok _ _ q h5 in
      let (end_pos, h8, h9) = bind-ok _ _ q h7 in
      bind-to _ _ begin _ h0 (
        bind-to _ _ end _ h2 (
          bind-to _ _ begin_pos _ h4 (
            push_range-agree p q (PatchRange.range bounds) begin_pos end end_pos
              (begin_position-bound begin begin_pos h4) h8 h9)))
  resolve_round-agree p q (PatchRange.single loc) k =
      let (resolved, h0, h1) = bind-ok _ _ q k in
      let (pn, h2, h3) = bind-ok _ _ q h1 in
      bind-to _ _ resolved _ h0
        (bind-to _ _ pn _ h2 (push_one-agree p q (PatchRange.single loc) pn h3))

  resolve_loop-agree :
      (p : Progress) (ranges : List PatchRange) (out : List PatchName)
      → contiguous_loop lib s allow_range p ranges ≡ ok out
      → resolve_loop lib s allow_range p.patches ranges ≡ ok out
  unfolding contiguous_loop resolve_loop
  resolve_loop-agree p [] out k = k
  resolve_loop-agree p (item ∷ more) out k =
      let (q, h0, h1) = bind-ok _ _ out k in
      bind-to _ _ q.patches _ (resolve_round-agree p q item h0) (resolve_loop-agree q more out h1)

  -- Where `resolve_names_contiguous` returns names, `resolve_names` returns the same names for the
  -- same ranges.
  pub resolve_names-agree :
      (ranges : List PatchRange) (out : List PatchName)
      → resolve_names_contiguous lib s allow_range ranges ≡ ok out
      → resolve_names lib s allow_range ranges ≡ ok out
  unfolding resolve_names_contiguous resolve_names
  resolve_names-agree ranges out k =
      resolve_loop-agree (record { patches = []; next_pos = none; prev_range = none }) ranges out k
