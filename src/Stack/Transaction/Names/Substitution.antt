-- ===== src/Stack/Transaction/Names/Substitution.antt =====
-- A list of names with one name in place of another.
use stgit.Prelude.{
  ℕ, zero, suc, ◌≤◌, false, ◌≡◌, refl, sym, ap, arith, List, [], ◌∷◌, some, if◌then◌else◌, ◌==◌,
  text_Eq, text_eq_iff, position, set, map, count, position-zero, position-suc, contains-count,
  contains-position,
}
use stgit.Patch.Name.{PatchName}
use stgit.Stack.Transaction.Defs.{transaction_access}

-- The new name in place of the old one.
abbrev pub renamed_as : PatchName → PatchName → PatchName → PatchName
renamed_as old new pn = if pn == old then new else pn

pub map-absent :
    (old new : PatchName) (xs : List PatchName)
    → count old xs ≡ 0
    → map (renamed_as old new) xs ≡ xs
unfolding count
map-absent old new [] h = refl
map-absent old new (x ∷ xs) h =
    ground (arith, map-absent old new xs, text_eq_iff x old, text_eq_iff old x)

pub set-map :
    (old new : PatchName) (xs : List PatchName) (i : ℕ)
    → count old xs ≤ 1
    → position (λ pn. pn == old) xs ≡ some i
    → set xs i new ≡ map (renamed_as old new) xs
unfolding count position
set-map old new [] i h e = cc
set-map old new (x ∷ xs) zero h e =
    let (found, found') = position-zero old x xs e in
    rw found (ap (◌∷◌ new) (sym (map-absent old new xs (ground arith))))
set-map old new (x ∷ xs) (suc i) h e =
    let (other, later) = position-suc old x xs i e in
    rw other (ap (◌∷◌ x) (set-map old new xs i (omega arith) later))

pub position-some-count :
    (old : PatchName) (xs : List PatchName) (i : ℕ)
    → position (λ pn. pn == old) xs ≡ some i
    → 1 ≤ count old xs
position-some-count old xs i e = ground (arith, contains-count xs old, contains-position old xs)

pub count-renamed :
    (a old new : PatchName) (xs : List PatchName)
    → (new == old) ≡ false
    → count new xs ≡ 0
    → count a (map (renamed_as old new) xs)
      ≡ (if new == a then count old xs else if old == a then 0 else count a xs)
unfolding count
count-renamed a old new [] d h = ground arith
count-renamed a old new (x ∷ xs) d h = ground (
  arith,
  count-renamed a old new xs d,
  text_eq_iff new x,
  text_eq_iff x old,
  text_eq_iff old x,
  text_eq_iff new a,
  text_eq_iff old a,
  text_eq_iff a x,
  text_eq_iff a new,
  text_eq_iff a old,
  text_eq_iff new old,
)
