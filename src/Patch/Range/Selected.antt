-- ===== src/Patch/Range/Selected.antt =====
-- What `resolve_names` of src/patch/range.rs selects.
use stgit.Prelude.{
  ℕ, suc, ◌-◌, ◌≤◌, true, false, ◌||◌, Option, none, some, List, [], ◌∷◌, ◌++◌, ◌≡◌, refl, sym, ap,
  ◌∙◌, arith, inl, inr, Bool-cases, Option-cases, take, drop, reverse, contains, count,
  count-append, count-nil, count-cons, count-take-drop, count-reverse, append-nil, append_assoc,
  subst, contains-count, text_eq_iff, leb, text_Eq,
}
use stgit.Patch.Name.{PatchName}
use stgit.Patch.Outcome.{ok, bind-ok}
use stgit.Patch.Spec.{PatchRange, RangeConstraint, location_constraint}
use stgit.Patch.Locator.{Libraries, unwrap-ok}
use stgit.Patch.Range.{
  check_group, push_one, takes, slice, push_all, constrain, allowed_patches, open_end, selected,
  push_selected, push_range, resolve_round, resolve_loop, resolve_names,
}
use stgit.Stack.Access.{
  StackStateAccess, LocationConstraint, LocationGroup, location_group, get_allowed,
}

-- No name stands twice in the list, and none that the other list has not.
abbrev pub IsSelection : List PatchName → List PatchName → Type 0
IsSelection allowed patches =
    (x : PatchName) → (count x patches ≤ 1) × (count x patches ≤ count x allowed)

pub slice-some :
    (begin end : ℕ) (xs ys : List PatchName)
    → slice begin end xs ≡ some ys
    → ys ≡ take (suc end - begin) (drop begin xs)
unfolding slice
slice-some begin end xs ys h = ground arith

slice-count :
    (begin end : ℕ) (xs ys : List PatchName)
    → slice begin end xs ≡ some ys
    → (x : PatchName) → count x ys ≤ count x xs
slice-count begin end xs ys h x = omega (
  arith,
  ap (count x) (slice-some begin end xs ys h),
  count-take-drop x (suc end - begin) (drop begin xs),
  count-take-drop x begin xs,
)

-- What is pushed was not there, so it is there once.
count-pushed :
    (x pn : PatchName) (patches : List PatchName)
    → contains patches pn ≡ false
    → count x patches ≤ 1
    → count x (patches ++ pn ∷ []) ≤ 1
count-pushed x pn patches h k = ground (
  arith,
  contains-count patches pn,
  count-append x patches (pn ∷ []),
  count-cons x pn [],
  count-nil x,
  text_eq_iff x pn,
  h,
  k,
)

pub pushed_on :
    (lib : Libraries) (patches : List PatchName) (pn : PatchName) (more out : List PatchName)
    → push_all lib patches (pn ∷ more) ≡ ok out
    → (contains patches pn ≡ false) × (push_all lib (patches ++ pn ∷ []) more ≡ ok out)
unfolding push_all
pushed_on lib patches pn more out h = (ground arith, ground arith)

pub contains-append :
    (x : PatchName) (xs ys : List PatchName)
    → contains (xs ++ ys) x ≡ (contains xs x || contains ys x)
unfolding contains
contains-append x [] ys = refl
contains-append x (y ∷ xs) ys = ground (arith, contains-append x xs ys)

pub push_all-append :
    (lib : Libraries) (patches names out : List PatchName)
    → push_all lib patches names ≡ ok out
    → (out ≡ patches ++ names) × ((x : PatchName) → count x patches ≤ 1 → count x out ≤ 1)
unfolding push_all
push_all-append lib patches [] out h =
    let e : out ≡ patches = ground arith in
    (e ∙ sym (append-nil patches), λ x k. subst (λ t. count x t ≤ 1) (sym e) k)
push_all-append lib patches (pn ∷ more) out h =
    let (fresh, rest) = pushed_on lib patches pn more out h in
    let (e, once) = push_all-append lib (patches ++ pn ∷ []) more out rest in
    (e ∙ append_assoc patches (pn ∷ []) more, λ x k. once x (count-pushed x pn patches fresh k))

module _ (lib : Libraries) {S : Type 0} ⦃access : StackStateAccess S⦄ (s : S) where
  -- A group that a constraint takes is among the patches that it allows.
  takes-allowed :
      (constraint : LocationConstraint) (group : LocationGroup) (pn : PatchName)
      → location_group s pn ≡ some group
      → takes constraint group ≡ true
      → contains (get_allowed s constraint) pn ≡ true
  unfolding location_group takes get_allowed
  takes-allowed LocationConstraint.all group pn h k = ground (
    arith,
    contains-append pn (access.applied s) (access.unapplied s ++ access.hidden s),
    contains-append pn (access.unapplied s) (access.hidden s),
  )
  takes-allowed LocationConstraint.visible group pn h k =
      ground (arith, contains-append pn (access.applied s) (access.unapplied s))
  takes-allowed LocationConstraint.applied group pn h k = ground arith
  takes-allowed LocationConstraint.unapplied group pn h k = ground arith
  takes-allowed LocationConstraint.hidden group pn h k = ground arith

  pub constrain-allowed :
      (pn out : PatchName) (constraint : LocationConstraint)
      → constrain lib s pn constraint ≡ ok out
      → (out ≡ pn) × (contains (get_allowed s constraint) pn ≡ true)
  unfolding constrain check_group
  constrain-allowed pn out constraint h =
      let (group, h0, h1) = bind-ok _ _ out h in
      let taken : takes constraint group ≡ true = ground arith in
      (ground arith, takes-allowed constraint group pn (unwrap-ok _ group h0) taken)

  module _ (allow_range : RangeConstraint) where
    selected-back :
        (begin_pos end_pos : ℕ) (zs ys : List PatchName)
        → slice end_pos begin_pos (allowed_patches lib s allow_range) ≡ some zs
        → leb begin_pos end_pos ≡ false
        → selected lib s allow_range begin_pos end_pos ≡ some ys
        → ys ≡ reverse zs
    unfolding selected
    selected-back begin_pos end_pos zs ys f n h = ground (arith, f, n, h)

    selected-count :
        (begin_pos end_pos : ℕ) (ys : List PatchName)
        → selected lib s allow_range begin_pos end_pos ≡ some ys
        → (x : PatchName) → count x ys ≤ count x (allowed_patches lib s allow_range)
    unfolding selected
    selected-count begin_pos end_pos ys h x = elim (Bool-cases (leb begin_pos end_pos)) [
      | inl y ↦
          slice-count begin_pos end_pos (allowed_patches lib s allow_range) ys
            (ground (arith, y, h)) x
      | inr n ↦ elim (Option-cases (slice end_pos begin_pos (allowed_patches lib s allow_range))) [
        | inl f ↦ absurd (ground (arith, n, f, h))
        | inr (zs, f) ↦ omega (
          arith,
          ap (count x) (selected-back begin_pos end_pos zs ys f n h),
          count-reverse x zs,
          slice-count end_pos begin_pos (allowed_patches lib s allow_range) zs f x,
        )
      ]
    ]

    push_selected-Selection :
        (patches : List PatchName) (begin_pos end_pos : ℕ) (out : List PatchName)
        → IsSelection (allowed_patches lib s allow_range) patches
        → push_selected lib s allow_range patches begin_pos end_pos ≡ ok out
        → IsSelection (allowed_patches lib s allow_range) out
    unfolding push_selected
    push_selected-Selection patches begin_pos end_pos out v h =
        let (names, h0, h1) = bind-ok _ _ out h in
        let (e, once) = push_all-append lib patches names out h1 in
        λ x. (
          once x (v x).0,
          omega (
            arith,
            once x (v x).0,
            v x,
            ap (count x) e,
            count-append x patches names,
            selected-count begin_pos end_pos names (unwrap-ok _ names h0) x,
          ),
        )

    push_range-Selection :
        (patches : List PatchName) (begin_pos : ℕ) (end : Option PatchName) (out : List PatchName)
        → IsSelection (allowed_patches lib s allow_range) patches
        → push_range lib s allow_range patches begin_pos end ≡ ok out
        → IsSelection (allowed_patches lib s allow_range) out
    unfolding push_range
    push_range-Selection patches begin_pos (some pn) out v h =
        let (end_pos, h0, h1) = bind-ok _ _ out h in
        push_selected-Selection patches begin_pos end_pos out v h1
    push_range-Selection patches begin_pos none out v h =
        elim (Option-cases (open_end lib s allow_range begin_pos)) [
          | inl f ↦ subst (IsSelection (allowed_patches lib s allow_range)) (ground (arith, f, h)) v
          | inr (end_pos, f) ↦
              push_selected-Selection patches begin_pos end_pos out v (ground (arith, f, h))
        ]

    push_one-Selection :
        (patches : List PatchName) (pn : PatchName) (out : List PatchName)
        → contains (allowed_patches lib s allow_range) pn ≡ true
        → IsSelection (allowed_patches lib s allow_range) patches
        → push_one lib patches pn ≡ ok out
        → IsSelection (allowed_patches lib s allow_range) out
    unfolding push_one
    push_one-Selection patches pn out known v h =
        let fresh : contains patches pn ≡ false = ground arith in
        let e : patches ++ pn ∷ [] ≡ out = ground arith in
        subst (IsSelection (allowed_patches lib s allow_range)) e λ x.
          let once = count-pushed x pn patches fresh (v x).0 in
          (
            once,
            ground (
              arith,
              once,
              v x,
              contains-count (allowed_patches lib s allow_range) pn,
              known,
              text_eq_iff x pn,
              count-append x patches (pn ∷ []),
              count-cons x pn [],
              count-nil x,
            ),
          )

    resolve_round-Selection :
        (patches : List PatchName) (item : PatchRange) (out : List PatchName)
        → IsSelection (allowed_patches lib s allow_range) patches
        → resolve_round lib s allow_range patches item ≡ ok out
        → IsSelection (allowed_patches lib s allow_range) out
    unfolding resolve_round
    resolve_round-Selection patches (PatchRange.range bounds) out v h =
        let (begin, h0, h1) = bind-ok _ _ out h in
        let (end, h2, h3) = bind-ok _ _ out h1 in
        let (begin_pos, h4, h5) = bind-ok _ _ out h3 in
        push_range-Selection patches begin_pos end out v h5
    resolve_round-Selection patches (PatchRange.single loc) out v h =
        let (resolved, h0, h1) = bind-ok _ _ out h in
        let (pn, h2, h3) = bind-ok _ _ out h1 in
        let (e, known) = constrain-allowed resolved pn (location_constraint allow_range) h2 in
        push_one-Selection patches pn out
          (subst (λ n. contains (allowed_patches lib s allow_range) n ≡ true) (sym e) known) v h3

    resolve_loop-Selection :
        (patches : List PatchName) (ranges : List PatchRange) (out : List PatchName)
        → IsSelection (allowed_patches lib s allow_range) patches
        → resolve_loop lib s allow_range patches ranges ≡ ok out
        → IsSelection (allowed_patches lib s allow_range) out
    unfolding resolve_loop
    resolve_loop-Selection patches [] out v h =
        subst (IsSelection (allowed_patches lib s allow_range)) (ground arith) v
    resolve_loop-Selection patches (item ∷ more) out v h =
        let (next, h0, h1) = bind-ok _ _ out h in
        resolve_loop-Selection next more out (resolve_round-Selection patches item next v h0) h1

    -- No name stands twice in what `resolve_names` returns, and none stands there that is not among
    -- the patches that the constraint allows.
    pub resolve_names-Selection :
        (ranges : List PatchRange) (out : List PatchName)
        → resolve_names lib s allow_range ranges ≡ ok out
        → IsSelection (get_allowed s (location_constraint allow_range)) out
    unfolding resolve_names
    resolve_names-Selection ranges out h =
        resolve_loop-Selection [] ranges out
          (λ x. (omega (arith, count-nil x), omega (arith, count-nil x))) h
