-- ===== src/Patch/Range/Panics.antt =====
-- The `expect`s, `unwrap`s and slices of src/patch/range.rs.
use stgit.Prelude.{
  ℕ, suc, ◌<◌, ◌≤◌, true, false, Option, none, some, List, [], ◌∷◌, ◌++◌, ◌≡◌, refl, sym, ap, subst,
  ◌∙◌, arith, ◌⊎◌, inl, inr, Option-cases, is_some, length, length-append, position, position-lt,
  contains, ◌==◌, eq_sym, text_Eq,
}
use stgit.Patch.Name.{PatchName}
use stgit.Patch.Outcome.{
  ok, bind-ok, panics, bind-panics, ok-injective, map_err, map_err-ok, map_err-panics,
}
use stgit.Patch.Spec.{
  PatchLocator, PatchRange, RangeConstraint, use_applied_boundary, location_constraint,
}
use stgit.Patch.Locator.{Libraries, unwrap, unwrap-ok}
use stgit.Patch.Locator.Resolve.{resolve_name}
use stgit.Patch.Locator.Found.{resolve_name-found}
use stgit.Patch.Range.{
  Error, check_group, slice, push_all, push_one, constrain, allowed_patches, resolve_bound,
  allowed_position, begin_position, open_end, selected, push_selected, push_range, resolve_round,
  resolve_loop, resolve_names,
}
use stgit.Patch.Range.Selected.{constrain-allowed, contains-append}
use stgit.Patch.Range.Agree.{begin_position-bound}
use stgit.Stack.Access.{
  LocationConstraint, LocationGroup, StackStateAccess, all_patches, get_allowed, location_group,
}

pub position-contains :
    (pn : PatchName) (xs : List PatchName)
    → contains xs pn ≡ true
    → is_some (position (λ x. x == pn) xs) ≡ true
unfolding contains position
position-contains pn [] h = cc
position-contains pn (x ∷ xs) h = ground (arith, eq_sym pn x, position-contains pn xs)

pub unwrap-panics :
    (E : Type 0) {A : Type 0} (o : Option A) → is_some o ≡ true → panics (unwrap {E = E} o) ≡ false
unwrap-panics E none h = cc
unwrap-panics E (some a) h = refl

pub slice-some_of :
    (begin end : ℕ) (xs : List PatchName)
    → end < length xs
    → begin ≤ suc end
    → is_some (slice begin end xs) ≡ true
unfolding slice
slice-some_of begin end xs h k = ground arith

pub push_all-panics :
    (lib : Libraries) (patches names : List PatchName) → panics (push_all lib patches names) ≡ false
unfolding push_all
push_all-panics lib patches [] = refl
push_all-panics lib patches (pn ∷ more) =
    ground (arith, push_all-panics lib (patches ++ pn ∷ []) more)

push_one-panics :
    (lib : Libraries) (patches : List PatchName) (pn : PatchName)
    → panics (push_one lib patches pn) ≡ false
unfolding push_one
push_one-panics lib patches pn = ground arith

check_group-panics :
    (lib : Libraries) (pn : PatchName) (constraint : LocationConstraint) (group : LocationGroup)
    → panics (check_group lib pn constraint group) ≡ false
unfolding check_group
check_group-panics lib pn constraint group = ground arith

module _ (lib : Libraries) {S : Type 0} ⦃access : StackStateAccess S⦄ (s : S) where
  abbrev pub Resolvable : Option PatchLocator → Type 0
  Resolvable none = Unit {0}
  Resolvable (some loc) = panics (resolve_name lib s loc) ≡ false

  -- No locator of the range panics.
  abbrev pub IsResolvable : PatchRange → Type 0
  IsResolvable (PatchRange.single loc) = Resolvable (some loc)
  IsResolvable (PatchRange.range bounds) = Resolvable bounds.begin × Resolvable bounds.end

  abbrev pub AllResolvable : List PatchRange → Type 0
  AllResolvable [] = Unit {0}
  AllResolvable (item ∷ more) = IsResolvable item × AllResolvable more

  location_group-some :
      (pn : PatchName) → contains (all_patches s) pn ≡ true → is_some (location_group s pn) ≡ true
  unfolding location_group
  location_group-some pn h = ground (
    arith,
    contains-append pn (access.applied s) (access.unapplied s ++ access.hidden s),
    contains-append pn (access.unapplied s) (access.hidden s),
  )

  applied_boundary-le :
      (allow_range : RangeConstraint)
      → use_applied_boundary allow_range ≡ true
      → length (access.applied s) ≤ length (get_allowed s (location_constraint allow_range))
  unfolding use_applied_boundary location_constraint get_allowed
  applied_boundary-le RangeConstraint.all_with_applied_boundary h =
      omega (arith, length-append {0} (access.applied s) (access.unapplied s ++ access.hidden s))
  applied_boundary-le RangeConstraint.visible_with_applied_boundary h =
      omega (arith, length-append {0} (access.applied s) (access.unapplied s))
  applied_boundary-le RangeConstraint.all h = cc
  applied_boundary-le RangeConstraint.visible h = cc
  applied_boundary-le RangeConstraint.applied h = cc
  applied_boundary-le RangeConstraint.unapplied h = cc
  applied_boundary-le RangeConstraint.hidden h = cc

  module _ (allow_range : RangeConstraint) where
    abbrev xs : List PatchName
    xs = allowed_patches lib s allow_range

    pub constrained-panics :
        (loc : PatchLocator) (pn : PatchName)
        → map_err Error.locator (resolve_name lib s loc) ≡ ok pn
        → panics (constrain lib s pn (location_constraint allow_range)) ≡ false
    unfolding constrain
    constrained-panics loc pn h =
        bind-panics _ _
          (unwrap-panics _ _
            (location_group-some pn (resolve_name-found lib s loc pn (map_err-ok _ _ pn h))))
          (λ group e. check_group-panics lib pn (location_constraint allow_range) group)

    pub resolve_bound-panics :
        (bound : Option PatchLocator)
        → Resolvable bound
        → (panics (resolve_bound lib s allow_range bound) ≡ false)
          × ((pn : PatchName)
              → resolve_bound lib s allow_range bound ≡ ok (some pn)
              → contains xs pn ≡ true)
    unfolding resolve_bound
    resolve_bound-panics none r = (refl, λ pn h. cc (ok-injective h))
    resolve_bound-panics (some loc) r = (
      bind-panics _ _ (map_err-panics Error.locator (resolve_name lib s loc) ∙ r)
          (λ pn h. bind-panics _ _ (constrained-panics loc pn h) (λ out e. refl)),
      λ pn h.
          let (resolved, h0, h1) = bind-ok _ _ (some pn) h in
          let (out, h2, h3) = bind-ok _ _ (some pn) h1 in
          let (e, known) =
            constrain-allowed lib s resolved out (location_constraint allow_range) h2 in
          let f : out ≡ pn = ground (arith, ok-injective h3) in
          subst (λ n. contains xs n ≡ true) (sym e ∙ f) known,
    )

    pub allowed_position-panics :
        (pn : PatchName)
        → contains xs pn ≡ true
        → panics (allowed_position lib s allow_range pn) ≡ false
    unfolding allowed_position
    allowed_position-panics pn h = unwrap-panics _ _ (position-contains pn xs h)

    pub open_end-lt : (n e : ℕ) → open_end lib s allow_range n ≡ some e → e < length xs
    unfolding open_end
    open_end-lt n e h = ground (arith, applied_boundary-le allow_range)

    selected-some :
        (begin_pos end_pos : ℕ)
        → (begin_pos ≡ 0) ⊎ (begin_pos < length xs)
        → end_pos < length xs
        → is_some (selected lib s allow_range begin_pos end_pos) ≡ true
    unfolding selected slice
    selected-some begin_pos end_pos (inl z) h = ground arith
    selected-some begin_pos end_pos (inr b) h = ground arith

    push_selected-panics :
        (patches : List PatchName) (begin_pos end_pos : ℕ)
        → (begin_pos ≡ 0) ⊎ (begin_pos < length xs)
        → end_pos < length xs
        → panics (push_selected lib s allow_range patches begin_pos end_pos) ≡ false
    unfolding push_selected
    push_selected-panics patches begin_pos end_pos b h =
        bind-panics _ _ (unwrap-panics _ _ (selected-some begin_pos end_pos b h))
          (λ names e. push_all-panics lib patches names)

    push_range-panics :
        (patches : List PatchName) (begin_pos : ℕ) (end : Option PatchName)
        → (begin_pos ≡ 0) ⊎ (begin_pos < length xs)
        → ((pn : PatchName) → end ≡ some pn → contains xs pn ≡ true)
        → panics (push_range lib s allow_range patches begin_pos end) ≡ false
    unfolding push_range allowed_position
    push_range-panics patches begin_pos (some pn) b known =
        bind-panics _ _ (allowed_position-panics pn (known pn refl)) λ end_pos e.
          push_selected-panics patches begin_pos end_pos b
            (position-lt (λ x. x == pn) xs end_pos (unwrap-ok _ end_pos e))
    push_range-panics patches begin_pos none b known =
        elim (Option-cases (open_end lib s allow_range begin_pos)) [
          | inl e ↦ rw (e, push_range) refl
          | inr (end_pos, e) ↦
              rw (e, push_range)
                (push_selected-panics patches begin_pos end_pos b (open_end-lt begin_pos end_pos e))
        ]

    pub begin_position-panics :
        (begin : Option PatchName)
        → ((pn : PatchName) → begin ≡ some pn → contains xs pn ≡ true)
        → panics (begin_position lib s allow_range begin) ≡ false
    unfolding begin_position
    begin_position-panics none known = refl
    begin_position-panics (some pn) known = allowed_position-panics pn (known pn refl)

    -- What a resolved bound gives to the rest of the round.
    pub bound-known :
        (bound : Option PatchLocator) (found : Option PatchName)
        → Resolvable bound
        → resolve_bound lib s allow_range bound ≡ ok found
        → (pn : PatchName) → found ≡ some pn
        → contains xs pn ≡ true
    bound-known bound found r h pn e = (resolve_bound-panics bound r).1 pn (h ∙ ap ok e)

    resolve_round-panics :
        (patches : List PatchName) (item : PatchRange)
        → IsResolvable item
        → panics (resolve_round lib s allow_range patches item) ≡ false
    unfolding resolve_round
    resolve_round-panics patches (PatchRange.range bounds) (r0, r1) =
        bind-panics _ _ (resolve_bound-panics bounds.begin r0).0 λ begin h0.
          bind-panics _ _ (resolve_bound-panics bounds.end r1).0 λ end h1.
            bind-panics _ _ (begin_position-panics begin (bound-known bounds.begin begin r0 h0))
              λ begin_pos h2.
                push_range-panics patches begin_pos end
                  (begin_position-bound lib s allow_range begin begin_pos h2)
                  (bound-known bounds.end end r1 h1)
    resolve_round-panics patches (PatchRange.single loc) r =
        bind-panics _ _ (map_err-panics Error.locator (resolve_name lib s loc) ∙ r) λ resolved h0.
          bind-panics _ _ (constrained-panics loc resolved h0)
            λ pn h1. push_one-panics lib patches pn

    resolve_loop-panics :
        (patches : List PatchName) (ranges : List PatchRange)
        → AllResolvable ranges
        → panics (resolve_loop lib s allow_range patches ranges) ≡ false
    unfolding resolve_loop
    resolve_loop-panics patches [] r = refl
    resolve_loop-panics patches (item ∷ more) (r, rs) =
        bind-panics _ _ (resolve_round-panics patches item r)
          λ next h. resolve_loop-panics next more rs

    -- If the resolution of no locator in the ranges panics, `resolve_names` does not panic: each
    -- position that it expects is found, and each slice that it takes is within bounds.
    pub resolve_names-panics :
        (ranges : List PatchRange)
        → AllResolvable ranges
        → panics (resolve_names lib s allow_range ranges) ≡ false
    unfolding resolve_names
    resolve_names-panics ranges r = resolve_loop-panics [] ranges r
