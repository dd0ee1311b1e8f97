-- ===== src/Patch/Range/Slices.antt =====
-- What `resolve_names_contiguous` of src/patch/range.rs selects.
use stgit.Prelude.{
  ℕ, zero, suc, ◌+◌, ◌-◌, ◌<◌, ◌≤◌, false, Option, none, some, List, [], ◌∷◌, ◌++◌, ◌≡◌, refl, sym,
  ap, subst, ◌∙◌, arith, ◌⊎◌, inl, inr, Bool-cases, Option-cases, length, length-append,
  length-take, length-drop, take, drop, position, position-lt, get_elem?, ◌==◌, text_eq_iff,
  text_Eq,
}
use native.Mathlib.Numerals.{unary_clauses}
use stgit.Patch.Name.{PatchName}
use stgit.Patch.Outcome.{ok, ◌>>=◌, bind-ok}
use stgit.Patch.Spec.{PatchRange, RangeConstraint, location_constraint}
use stgit.Patch.Locator.{Libraries, unwrap-ok}
use stgit.Patch.Range.{slice, allowed_patches, allowed_position}
use stgit.Patch.Range.Selected.{slice-some, push_all-append}
use stgit.Patch.Range.Contiguous.{
  Progress, is_gap, check_contiguous, append_slice, append_fresh, append_single, contiguous_round,
  contiguous_loop, resolve_names_contiguous,
}
use stgit.Stack.Access.{StackStateAccess, get_allowed}

module _ {A : Type 0} where
  take-take : (n m : ℕ) (xs : List A) → take n xs ++ take m (drop n xs) ≡ take (n + m) xs
  take-take zero m xs = ap (λ k. take k xs) (omega arith)
  take-take (suc n) zero [] = simp unary_clauses refl
  take-take (suc n) (suc m) [] = simp unary_clauses refl
  take-take (suc n) m (x ∷ xs) =
      ap (◌∷◌ x) (take-take n m xs) ∙ ap (λ k. take k (x ∷ xs)) {x = suc (n + m)} (omega arith)

  drop-drop : (n m : ℕ) (xs : List A) → drop n (drop m xs) ≡ drop (m + n) xs
  drop-drop n zero xs = ap (λ k. drop k xs) (omega arith)
  drop-drop zero (suc m) [] = simp unary_clauses refl
  drop-drop (suc n) (suc m) [] = simp unary_clauses refl
  drop-drop n (suc m) (x ∷ xs) =
      drop-drop n m xs ∙ ap (λ k. drop k (x ∷ xs)) {x = suc (m + n)} (omega arith)

  -- Two neighbouring parts of a list are one part.
  slice-slice :
      (xs patches names : List A) (start m : ℕ)
      → patches ≡ take (length patches) (drop start xs)
      → names ≡ take m (drop (start + length patches) xs)
      → start + length patches + m ≤ length xs
      → (patches ++ names ≡ take (length (patches ++ names)) (drop start xs)) × (length names ≡ m)
  slice-slice xs patches names start m h k fits =
      let n = length patches in
      let len : length names ≡ m = omega (
        arith,
        ap length k,
        length-take m (drop (start + n) xs),
        length-drop (start + n) xs,
        fits,
      ) in
      let joined : patches ++ names ≡ take (n + m) (drop start xs) =
        ap (λ p. p ++ names) h
        ∙ ap (λ t. take n (drop start xs) ++ t) (k ∙ ap (take m) (sym (drop-drop n start xs)))
        ∙ take-take n m (drop start xs) in
      (
        joined ∙ ap (λ c. take c (drop start xs)) (omega (arith, len, length-append patches names)),
        len,
      )

  take_one-get_elem? :
      (xs : List A) (i : ℕ) (x : A) → get_elem? xs i ≡ some x → (x ∷ []) ≡ take 1 (drop i xs)
  take_one-get_elem? [] i x h = cc
  take_one-get_elem? (y ∷ xs) zero x h = ground arith
  take_one-get_elem? (y ∷ xs) (suc i) x h = take_one-get_elem? xs i x h

position-elem :
    (pn : PatchName) (xs : List PatchName) (i : ℕ)
    → position (λ x. x == pn) xs ≡ some i
    → get_elem? xs i ≡ some pn
unfolding position
position-elem pn [] i h = cc
position-elem pn (x ∷ xs) zero h = ground (arith, text_eq_iff x pn)
position-elem pn (x ∷ xs) (suc i) h = ground (arith, position-elem pn xs i)

-- The patches so far are consecutive, and the next position is the one behind them.
abbrev IsRun : List PatchName → Progress → Type 0
IsRun xs p =
    ((p.next_pos ≡ none) × (p.patches ≡ []))
    ⊎ ((start : ℕ) × (p.next_pos ≡ some (start + length p.patches))
        × (p.patches ≡ take (length p.patches) (drop start xs)))

IsRun-slice :
    (xs : List PatchName) (p : Progress)
    → IsRun xs p
    → (start : ℕ) × (p.patches ≡ take (length p.patches) (drop start xs))
IsRun-slice xs p (inl (e, f)) = (0, subst (λ t. t ≡ take (length t) (drop 0 xs)) (sym f) refl)
IsRun-slice xs p (inr (start, e, f)) = (start, f)

-- A part that follows without a gap.
IsRun-next :
    (xs : List PatchName) (p : Progress) (at : ℕ)
    → IsRun xs p
    → is_gap p.next_pos at ≡ false
    → (start : ℕ) × (start + length p.patches ≡ at)
      × (p.patches ≡ take (length p.patches) (drop start xs))
IsRun-next xs p at (inl (e, f)) h =
    (at, omega (arith, ap length f), subst (λ t. t ≡ take (length t) (drop at xs)) (sym f) refl)
IsRun-next xs p at (inr (start, e, f)) h = (start, ground (arith, e, h), f)

IsRun-extend :
    (xs : List PatchName) (p q : Progress) (at m : ℕ) (names : List PatchName)
    → IsRun xs p
    → is_gap p.next_pos at ≡ false
    → names ≡ take m (drop at xs)
    → at + m ≤ length xs
    → q.patches ≡ p.patches ++ names
    → q.next_pos ≡ some (at + m)
    → IsRun xs q
IsRun-extend xs p q at m names v h k fits e f =
    let (start, g, run_p) = IsRun-next xs p at v h in
    let (run, len) =
      slice-slice xs p.patches names start m run_p (k ∙ ap (λ a. take m (drop a xs)) (sym g))
        (omega (arith, g, fits)) in
    let next : at + m ≡ start + length q.patches =
      omega (arith, g, len, ap length e, length-append p.patches names) in
    inr (start, f ∙ ap some next, subst (λ t. t ≡ take (length t) (drop start xs)) (sym e) run)

slice-bounds :
    (begin end : ℕ) (xs ys : List PatchName)
    → slice begin end xs ≡ some ys
    → (begin ≤ suc end) × (end < length xs)
unfolding slice
slice-bounds begin end xs ys h = (ground arith, ground arith)

module _ (lib : Libraries) {S : Type 0} ⦃access : StackStateAccess S⦄ (s : S)
    (allow_range : RangeConstraint) where
  abbrev xs : List PatchName
  xs = allowed_patches lib s allow_range

  check-no_gap :
      (p : Progress) (item : PatchRange) (at : ℕ) (u : Unit {0})
      → check_contiguous lib p item at ≡ ok u
      → is_gap p.next_pos at ≡ false
  unfolding check_contiguous ◌>>=◌
  check-no_gap p item at u h = elim (Bool-cases (is_gap p.next_pos at)) [
    | inl y ↦ elim (Option-cases p.prev_range) [
      | inl e ↦ absurd (ground (arith, y, e, h))
      | inr (r, e) ↦ absurd (ground (arith, y, e, h))
    ]
    | inr n ↦ n
  ]

  append_slice-IsRun :
      (p q : Progress) (item : PatchRange) (begin_pos : ℕ) (end_pos : Option ℕ)
      → IsRun xs p
      → is_gap p.next_pos begin_pos ≡ false
      → append_slice lib s allow_range p item begin_pos end_pos ≡ ok q
      → IsRun xs q
  unfolding append_slice
  append_slice-IsRun p q item begin_pos none v h k =
      let e : p ≡ q = ground arith in subst (IsRun xs) e v
  append_slice-IsRun p q item begin_pos (some end_pos) v h k =
      let (names, h0, h1) = bind-ok _ _ q k in
      let (pushed, h2, h3) = bind-ok _ _ q h1 in
      let (joined, once) = push_all-append lib p.patches names pushed h2 in
      let e : record { patches = pushed; next_pos = some (suc end_pos); prev_range = some item }
          ≡ q =
        ground arith in
      let (ordered, inside) = slice-bounds begin_pos end_pos xs names (unwrap-ok _ names h0) in
      IsRun-extend xs p q begin_pos (suc end_pos - begin_pos) names v h
        (slice-some begin_pos end_pos xs names (unwrap-ok _ names h0))
        (omega (arith, ordered, inside)) (sym (ap (λ r. r.patches) e) ∙ joined)
        (sym (ap (λ r. r.next_pos) e) ∙ ap some (omega (arith, ordered)))

  append_fresh-IsRun :
      (p q : Progress) (item : PatchRange) (pn : PatchName)
      → IsRun xs p
      → append_fresh lib s allow_range p item pn ≡ ok q
      → IsRun xs q
  unfolding append_fresh allowed_position
  append_fresh-IsRun p q item pn v k =
      let (at, h0, h1) = bind-ok _ _ q k in
      let (u, h2, h3) = bind-ok _ _ q h1 in
      let found : position (λ x. x == pn) xs ≡ some at = unwrap-ok _ at h0 in
      let e : record {
        patches = p.patches ++ pn ∷ [];
        next_pos = some (suc at);
        prev_range = some item;
      }
          ≡ q =
        ground arith in
      IsRun-extend xs p q at 1 (pn ∷ []) v (check-no_gap p item at u h2)
        (take_one-get_elem? xs at pn (position-elem pn xs at found))
        (omega (arith, position-lt (λ x. x == pn) xs at found)) (sym (ap (λ r. r.patches) e))
        (sym (ap (λ r. r.next_pos) e) ∙ ap some (omega arith))

  append_single-IsRun :
      (p q : Progress) (item : PatchRange) (pn : PatchName)
      → IsRun xs p
      → append_single lib s allow_range p item pn ≡ ok q
      → IsRun xs q
  unfolding append_single
  append_single-IsRun p q item pn v k = append_fresh-IsRun p q item pn v (ground arith)

  contiguous_round-IsRun :
      (p q : Progress) (item : PatchRange)
      → IsRun xs p
      → contiguous_round lib s allow_range p item ≡ ok q
      → IsRun xs q
  unfolding contiguous_round
  contiguous_round-IsRun p q (PatchRange.range bounds) v k =
      let (begin, h0, h1) = bind-ok _ _ q k in
      let (end, h2, h3) = bind-ok _ _ q h1 in
      let (begin_pos, h4, h5) = bind-ok _ _ q h3 in
      let (u, h6, h7) = bind-ok _ _ q h5 in
      let (end_pos, h8, h9) = bind-ok _ _ q h7 in
      append_slice-IsRun p q (PatchRange.range bounds) begin_pos end_pos v
        (check-no_gap p (PatchRange.range bounds) begin_pos u h6) h9
  contiguous_round-IsRun p q (PatchRange.single loc) v k =
      let (resolved, h0, h1) = bind-ok _ _ q k in
      let (pn, h2, h3) = bind-ok _ _ q h1 in append_single-IsRun p q (PatchRange.single loc) pn v h3

  contiguous_loop-IsRun :
      (p : Progress) (ranges : List PatchRange) (out : List PatchName)
      → IsRun xs p
      → contiguous_loop lib s allow_range p ranges ≡ ok out
      → (start : ℕ) × (out ≡ take (length out) (drop start xs))
  unfolding contiguous_loop
  contiguous_loop-IsRun p [] out v k =
      let e : p.patches ≡ out = ground arith in
      let (start, run) = IsRun-slice xs p v in
      (start, subst (λ t. t ≡ take (length t) (drop start xs)) e run)
  contiguous_loop-IsRun p (item ∷ more) out v k =
      let (q, h0, h1) = bind-ok _ _ out k in
      contiguous_loop-IsRun q more out (contiguous_round-IsRun p q item v h0) h1

  -- The names that `resolve_names_contiguous` returns are consecutive in the list of the allowed
  -- patches: they are its part from some position on, in its order.
  pub resolve_names_contiguous-slice :
      (ranges : List PatchRange) (out : List PatchName)
      → resolve_names_contiguous lib s allow_range ranges ≡ ok out
      → (start : ℕ) × (out
          ≡ take (length out) (drop start (get_allowed s (location_constraint allow_range))))
  unfolding resolve_names_contiguous
  resolve_names_contiguous-slice ranges out k =
      contiguous_loop-IsRun (record { patches = []; next_pos = none; prev_range = none }) ranges out
        (inl (refl, refl)) k
