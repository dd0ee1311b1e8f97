-- ===== src/Stack/Transaction/Reorder/Prefix.antt =====
-- The common prefix of two orders, and the part of the applied patches that `reorder_patches` of
-- src/stack/transaction/mod.rs pops.
use stgit.Prelude.{
  ℕ, ◌≤◌, Bool, true, ◌≡◌, refl, ap, subst, arith, List, [], ◌∷◌, ◌++◌, none, some, text_Eq,
  text_eq_iff, take, drop, length, filter, position, contains, contains-count, count, count-cons,
  count-take-drop, filter_none-of_counts, take-append-drop, append-nil,
}
use stgit.Patch.Name.{PatchName}
use stgit.Stack.Transaction.Lists.{split_off_first}
use stgit.Stack.Transaction.Reorder.{common_prefix, names_eq}

pub names_eq_refl : (xs : List PatchName) → names_eq xs xs ≡ true
unfolding names_eq
names_eq_refl [] = refl
names_eq_refl (x ∷ xs) = ground (arith, names_eq_refl xs, text_eq_iff x x)

pub take-common_prefix :
    (xs ys : List PatchName) → take (common_prefix xs ys) xs ≡ take (common_prefix xs ys) ys
unfolding common_prefix
take-common_prefix (x ∷ xs) (y ∷ ys) = ground (arith, take-common_prefix xs ys, text_eq_iff x y)
take-common_prefix [] [] = refl
take-common_prefix [] (y ∷ ys) = refl
take-common_prefix (x ∷ xs) [] = refl

take-length : (xs ys : List PatchName) → take (length xs) (xs ++ ys) ≡ xs
take-length [] ys = refl
take-length (x ∷ xs) ys = ap (◌∷◌ x) (take-length xs ys)

drop-length : (xs ys : List PatchName) → drop (length xs) (xs ++ ys) ≡ ys
drop-length [] ys = refl
drop-length (x ∷ xs) ys = drop-length xs ys

position-none :
    (p : PatchName → Bool) (xs : List PatchName) → filter p xs ≡ [] → position p xs ≡ none
unfolding position
position-none p [] h = refl
position-none p (x ∷ xs) h = ground (arith, position-none p xs)

position-append :
    (p : PatchName → Bool) (xs : List PatchName) (y : PatchName) (ys : List PatchName)
    → filter p xs ≡ []
    → p y ≡ true
    → position p (xs ++ y ∷ ys) ≡ some (length xs)
unfolding position
position-append p [] y ys h k = ground arith
position-append p (x ∷ xs) y ys h k = ground (arith, position-append p xs y ys)

-- A list is split where the names that pass begin.
pub split_off_first-append :
    (p : PatchName → Bool) (xs ys : List PatchName)
    → filter p xs ≡ []
    → ((y : PatchName) (zs : List PatchName) → ys ≡ y ∷ zs → p y ≡ true)
    → split_off_first p (xs ++ ys) ≡ (xs, ys)
unfolding split_off_first
split_off_first-append p xs [] h k =
    rw (append-nil, position-none p xs h, split_off_first) (rw append-nil refl)
split_off_first-append p xs (y ∷ ys) h k =
    rw (position-append p xs y ys h (k y ys refl), split_off_first)
      (rw (take-length, drop-length) refl)

-- In a list with no name twice, the names of its part from `k` on are split off there.
pub split_off_first-drop :
    (k : ℕ) (xs : List PatchName)
    → ((a : PatchName) → count a xs ≤ 1)
    → split_off_first (λ pn. contains (drop k xs) pn) xs ≡ (take k xs, drop k xs)
split_off_first-drop k xs once =
    let p : PatchName → Bool = λ pn. contains (drop k xs) pn in
    let kept : filter p (take k xs) ≡ [] =
      filter_none-of_counts p (take k xs)
        (λ a e. ground (arith, once a, count-take-drop a k xs, contains-count (drop k xs) a)) in
    let popped : (y : PatchName) (zs : List PatchName) → drop k xs ≡ y ∷ zs → p y ≡ true = λ y zs e.
      ground
        (arith, contains-count (drop k xs) y, ap (count y) e, count-cons y y zs, text_eq_iff y y) in
    subst (λ zs. split_off_first p zs ≡ (take k xs, drop k xs)) (take-append-drop k xs)
      (split_off_first-append p (take k xs) (drop k xs) kept popped)
