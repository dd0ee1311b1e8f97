-- ===== src/Prelude/Counts.antt =====
-- How often a value stands in a list. Two lists with the same counts hold the same items.
use Prim.Native.Nat.{ℕ, zero, suc, ◌+◌, ◌<◌, ◌≤◌}
use mathlib.Core.Path.{◌≡◌, refl, sym, ap, ◌∙◌}
use mathlib.Core.Logic.{inl, inr, ◌≢◌}
use mathlib.Core.Bool.{Bool, true, false, not}
use mathlib.Core.List.{List, [], ◌∷◌, ◌++◌, reverse, reverse-append}
use mathlib.Core.Option.{none, some}
use native.Mathlib.Omega.{arith}
use stgit.Prelude.Tests.{Eq, ◌==◌, ltb, one_if, if◌then◌else◌, eq_sym, eq_refl, is_some, Bool-cases}
use stgit.Prelude.Lists.{filter, take, drop, position, erase_idx, insert_idx, set, get_last?}

module _ {ℓ} {A : Type ℓ} ⦃e : Eq A⦄ where
  unfoldable pub count : A → List A → ℕ
  count a [] = 0
  count a (x ∷ xs) = one_if (a == x) + count a xs

  unfoldable pub contains : List A → A → Bool
  contains [] a = false
  contains (x ∷ xs) a = if a == x then true else contains xs a

  pub count-nil : (a : A) → count a [] ≡ 0
  unfolding count
  count-nil a = refl

  pub count-cons : (a x : A) (xs : List A) → count a (x ∷ xs) ≡ one_if (a == x) + count a xs
  unfolding count
  count-cons a x xs = refl

  pub count-append : (a : A) (xs ys : List A) → count a (xs ++ ys) ≡ count a xs + count a ys
  unfolding count
  count-append a [] ys = omega arith
  count-append a (x ∷ xs) ys = omega (arith, count-append a xs ys)

  pub contains-count : (xs : List A) (a : A) → contains xs a ≡ ltb 0 (count a xs)
  unfolding count contains
  contains-count [] a = refl
  contains-count (x ∷ xs) a = ground (arith, contains-count xs a)

  pub count-filter :
      (a : A) (p : A → Bool) (xs : List A) → count a (filter p xs) ≡ (if p a then count a xs else 0)
  unfolding count
  count-filter a p [] = ground arith
  count-filter a p (x ∷ xs) = ground (arith, count-filter a p xs, e.eq_iff a x)

  pub count-take-drop :
      (a : A) (n : ℕ) (xs : List A) → count a (take n xs) + count a (drop n xs) ≡ count a xs
  unfolding count
  count-take-drop a zero xs = omega arith
  count-take-drop a (suc n) [] = refl
  count-take-drop a (suc n) (x ∷ xs) = omega (arith, count-take-drop a n xs)

  -- Taking out the element that `position` finds takes out one copy of it.
  pub count-erase_idx-position :
      (a b : A) (xs : List A) (i : ℕ)
      → position (λ x. x == b) xs ≡ some i
      → count a (erase_idx xs i) + one_if (a == b) ≡ count a xs
  unfolding count position
  count-erase_idx-position a b [] i h = cc
  count-erase_idx-position a b (x ∷ xs) zero h = ground (arith, e.eq_iff x b)
  count-erase_idx-position a b (x ∷ xs) (suc i) h =
      ground (arith, count-erase_idx-position a b xs i)

  pub count-insert_idx :
      (a b : A) (i : ℕ) (xs : List A) → count a (insert_idx xs i b) ≡ one_if (a == b) + count a xs
  unfolding count
  count-insert_idx a b zero xs = refl
  count-insert_idx a b (suc i) [] = refl
  count-insert_idx a b (suc i) (x ∷ xs) = omega (arith, count-insert_idx a b i xs)

  pub count-set-position :
      (a b c : A) (xs : List A) (i : ℕ)
      → position (λ x. x == b) xs ≡ some i
      → count a (set xs i c) + one_if (a == b) ≡ count a xs + one_if (a == c)
  unfolding count position
  count-set-position a b c [] i h = cc
  count-set-position a b c (x ∷ xs) zero h = ground (arith, e.eq_iff x b)
  count-set-position a b c (x ∷ xs) (suc i) h = ground (arith, count-set-position a b c xs i)

  pub count-position-none :
      (b : A) (xs : List A) → position (λ x. x == b) xs ≡ none → count b xs ≡ 0
  unfolding count position
  count-position-none b [] h = refl
  count-position-none b (x ∷ xs) h = ground (arith, count-position-none b xs, eq_sym b x)

  pub contains-position :
      (b : A) (xs : List A) → contains xs b ≡ is_some (position (λ x. x == b) xs)
  unfolding contains position
  contains-position b [] = refl
  contains-position b (x ∷ xs) = ground (arith, contains-position b xs, eq_sym b x)

  pub get_last?-count : (x : A) (xs : List A) → get_last? xs ≡ some x → 0 < count x xs
  unfolding count
  get_last?-count x [] h = cc
  get_last?-count x (y ∷ []) h = ground (arith, e.eq_iff x y)
  get_last?-count x (y ∷ z ∷ xs) h = omega (arith, get_last?-count x (z ∷ xs) h)

  pub count-reverse : (a : A) (xs : List A) → count a (reverse xs) ≡ count a xs
  count-reverse a [] = refl
  count-reverse a (x ∷ xs) =
      ap (count a) (reverse-append (x ∷ []) xs)
      ∙ omega (
        arith,
        count-append a (reverse xs) (x ∷ []),
        count-reverse a xs,
        count-cons a x xs,
        count-cons a x [],
        count-nil a,
      )

  pub filter_ne-of_count :
      (b : A) (xs : List A) → count b xs ≡ 0 → filter (λ x. not (x == b)) xs ≡ xs
  unfolding count
  filter_ne-of_count b [] h = refl
  filter_ne-of_count b (x ∷ xs) h = ground (arith, filter_ne-of_count b xs, eq_sym b x)

  pub position-zero :
      (b x : A) (xs : List A)
      → position (λ y. y == b) (x ∷ xs) ≡ some 0
      → ((x == b) ≡ true) × ((b == x) ≡ true)
  unfolding position
  position-zero b x xs p = ground (arith, eq_sym b x)

  pub position-suc :
      (b x : A) (xs : List A) (i : ℕ)
      → position (λ y. y == b) (x ∷ xs) ≡ some (suc i)
      → ((x == b) ≡ false) × (position (λ y. y == b) xs ≡ some i)
  unfolding position
  position-suc b x xs i p = ground arith

  -- Of a value that stands in the list once at most, taking out the first copy takes out all.
  pub erase_idx-position :
      (b : A) (xs : List A) (i : ℕ)
      → count b xs ≤ 1
      → position (λ x. x == b) xs ≡ some i
      → erase_idx xs i ≡ filter (λ x. not (x == b)) xs
  unfolding count position
  erase_idx-position b [] i h p = cc
  erase_idx-position b (x ∷ xs) zero h p =
      let found = position-zero b x xs p in
      let none_left : count b xs ≡ 0 = ground arith in
      rw (found.0) (sym (filter_ne-of_count b xs none_left))
  erase_idx-position b (x ∷ xs) (suc i) h p =
      let later = position-suc b x xs i p in
      rw (later.0) (ap (◌∷◌ x) (erase_idx-position b xs i (omega arith) (later.1)))

  count-head-ne-zero : (x : A) (xs : List A) → count x (x ∷ xs) ≢ 0
  unfolding count
  count-head-ne-zero x xs h = ground (arith, eq_refl x)

  pub nil-of_counts : (xs : List A) → ((a : A) → count a xs ≡ 0) → xs ≡ []
  unfolding count
  nil-of_counts [] h = refl
  nil-of_counts (x ∷ xs) h = absurd (count-head-ne-zero x xs (h x))

  pub filter_all-of_counts :
      (p : A → Bool) (xs : List A) → ((a : A) → p a ≡ false → count a xs ≡ 0) → filter p xs ≡ xs
  unfolding count
  filter_all-of_counts p [] h = refl
  filter_all-of_counts p (x ∷ xs) h = elim (Bool-cases (p x)) [
    | inl yes_x ↦ rw yes_x (ap (◌∷◌ x) (filter_all-of_counts p xs (λ a e. omega (arith, h a e))))
    | inr no_x ↦ absurd (count-head-ne-zero x xs (h x no_x))
  ]

  pub filter_none-of_counts :
      (p : A → Bool) (xs : List A) → ((a : A) → p a ≡ true → count a xs ≡ 0) → filter p xs ≡ []
  filter_none-of_counts p xs h =
      nil-of_counts (filter p xs) (λ a. ground (arith, count-filter a p xs, h a))
