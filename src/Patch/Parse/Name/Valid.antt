-- ===== src/Patch/Parse/Name/Valid.antt =====
-- The names that `patch_name` of src/patch/parse/name.rs reads.
use stgit.Prelude.{
  Text, ℕ, zero, suc, ◌-◌, ◌<◌, ◌≤◌, Bool, true, false, ◌&&◌, ◌||◌, ◌≡◌, refl, sym, ap, subst, ◌∙◌,
  arith, [], ◌∷◌, ◌++◌, Option, none, some, head?, get_last?, is_empty, take, drop, length,
  length-take, length-append, take-append-drop, nat_eq, text_eq, codes, Bool-cases, inl, inr,
  append_assoc,
}
use stgit.Patch.Name.Validate.{
  is_ascii_whitespace, is_control, is_special, next_is, ends_with, validate,
}
use stgit.Patch.Name.Validate.Sound.{IsValid, validate-IsValid}
use stgit.Patch.Parse.Parsed.{read}
use stgit.Patch.Parse.Name.{
  breaks, split_offset, is_escaped, skip_escape, without_dot, check_name, patch_name, is_stop,
  next_is_dot_or_end,
}

-- What holds of a character before the break and the one after it. The first character may be an
-- escaping backslash.
record Kept (first : Bool) (c : ℕ) (next : Option ℕ) : Type 0 where
  pub plain :
      (nat_eq c 92 && first) ≡ false
      → (is_ascii_whitespace c || (is_control c || is_special c)) ≡ false
  pub no_two_dots : nat_eq c b'.' ≡ true → next_is next b'.' ≡ false
  pub no_at_brace : nat_eq c b'@' ≡ true → next_is next b'{' ≡ false
  pub no_first_dot : first ≡ true → nat_eq c b'.' ≡ false

plain_of :
    (c : ℕ)
    → is_control c ≡ false
    → is_stop c ≡ false
    → nat_eq c 92 ≡ false
    → (is_ascii_whitespace c || (is_control c || is_special c)) ≡ false
unfolding is_control is_stop is_ascii_whitespace is_special
plain_of c h k l = ground arith

Kept-head :
    (first : Bool) (c : ℕ) (zs : Text) → 0 < split_offset first (c ∷ zs) → Kept first c (head? zs)
unfolding split_offset breaks next_is next_is_dot_or_end
Kept-head first c zs h = record {
  plain = λ p. ground (arith, p, plain_of c);
  no_two_dots = λ d. ground arith;
  no_at_brace = λ d. ground arith;
  no_first_dot = λ f. ground arith;
}

and_false : (b : Bool) → (b && false) ≡ false
and_false true = refl
and_false false = refl

split_offset-suc :
    (first : Bool) (x : ℕ) (ys : Text) (n : ℕ)
    → suc n < split_offset first (x ∷ ys)
    → n < split_offset false ys
unfolding split_offset
split_offset-suc first x ys n h = ground arith

-- The characters before the break are kept.
split_offset-Kept :
    (first : Bool) (xs : Text) (c : ℕ) (zs : Text)
    → length xs < split_offset first (xs ++ c ∷ zs)
    → Kept (first && is_empty xs) c (head? zs)
split_offset-Kept true [] c zs h = Kept-head true c zs h
split_offset-Kept false [] c zs h = Kept-head false c zs h
split_offset-Kept first (x ∷ xs) c zs h =
    rw (and_false first)
      (split_offset-Kept false xs c zs (split_offset-suc first x (xs ++ c ∷ zs) (length xs) h))

skipped_nil : (xs : Text) → length xs < (skip_escape []).1 → ⊥
unfolding skip_escape
skipped_nil xs h = omega arith

skip_escape-escaped :
    (x : ℕ) (input : Text)
    → is_escaped (x ∷ input) ≡ true
    → skip_escape (x ∷ input) ≡ (input, split_offset true (x ∷ input) - 1)
unfolding skip_escape
skip_escape-escaped x input h = rw (h, skip_escape) refl

pub skip_escape-plain :
    (input : Text) → is_escaped input ≡ false → skip_escape input ≡ (input, split_offset true input)
unfolding skip_escape
skip_escape-plain input h = rw (h, skip_escape) refl

-- An escaped dash is no dot.
escaped-dash :
    (x : ℕ) (xs : Text) (c : ℕ) (zs : Text)
    → is_escaped (x ∷ (xs ++ c ∷ zs)) ≡ true
    → is_empty xs ≡ true
    → nat_eq c b'.' ≡ false
unfolding is_escaped next_is
escaped-dash x [] c zs h k = ground arith
escaped-dash x (y ∷ xs) c zs h k = cc

-- A first backslash that escapes nothing is not kept.
Kept-plain :
    (xs : Text) (c : ℕ) (zs : Text)
    → is_escaped (xs ++ c ∷ zs) ≡ false
    → length xs < split_offset true (xs ++ c ∷ zs)
    → Kept (is_empty xs) c (head? zs)
    → Kept false c (head? zs) × (is_empty xs ≡ true → nat_eq c b'.' ≡ false)
unfolding is_escaped split_offset
Kept-plain [] c zs h k v = (
  record {
    plain = λ p. v.plain (ground arith);
    no_two_dots = v.no_two_dots;
    no_at_brace = v.no_at_brace;
    no_first_dot = λ f. cc;
  },
  v.no_first_dot,
)
Kept-plain (x ∷ xs) c zs h k v = (v, λ f. cc)

-- A part of the input before the break, as `skip_escape` leaves it.
skipped-Kept :
    (input xs : Text) (c : ℕ) (zs : Text)
    → (skip_escape input).0 ≡ xs ++ c ∷ zs
    → length xs < (skip_escape input).1
    → Kept false c (head? zs) × (is_empty xs ≡ true → nat_eq c b'.' ≡ false)
skipped-Kept [] xs c zs e h = absurd (skipped_nil xs h)
skipped-Kept (x ∷ input) xs c zs e h = elim (Bool-cases (is_escaped (x ∷ input))) [
  | inl y ↦
      let s = skip_escape-escaped x input y in
      let e' : input ≡ xs ++ c ∷ zs = cc (e, s) in
      let h' : suc (length xs) < split_offset true (x ∷ input) =
        omega (arith, h, ap (λ p. p.1) s) in
      (
        split_offset-Kept true (x ∷ xs) c zs
            (subst (λ i. suc (length xs) < split_offset true (x ∷ i)) e' h'),
        escaped-dash x xs c zs (subst (λ i. is_escaped (x ∷ i) ≡ true) e' y),
      )
  | inr n ↦
      let s = skip_escape-plain (x ∷ input) n in
      let e' : x ∷ input ≡ xs ++ c ∷ zs = cc (e, s) in
      let h' : length xs < split_offset true (x ∷ input) = omega (arith, h, ap (λ p. p.1) s) in
      let h'' = subst (λ i. length xs < split_offset true i) e' h' in
      Kept-plain xs c zs (subst (λ i. is_escaped i ≡ false) e' n) h''
        (split_offset-Kept true xs c zs h'')
]

split_offset-le : (first : Bool) (s : Text) → split_offset first s ≤ length s
unfolding split_offset
split_offset-le first [] = omega arith
split_offset-le first (c ∷ s) = ground (arith, split_offset-le false s)

skip_escape-le : (input : Text) → (skip_escape input).1 ≤ length (skip_escape input).0
unfolding skip_escape is_escaped
skip_escape-le [] = omega arith
skip_escape-le (x ∷ input) = ground (arith, split_offset-le true (x ∷ input))

get_last?-append : (xs : Text) (c : ℕ) → get_last? (xs ++ c ∷ []) ≡ some c
get_last?-append [] c = refl
get_last?-append (x ∷ []) c = refl
get_last?-append (x ∷ y ∷ xs) c = get_last?-append (y ∷ xs) c

-- The last of the first characters is the one before which fewer are taken.
get_last?-take : (n : ℕ) (s : Text) → n < length s → get_last? (take (suc n) s) ≡ head? (drop n s)
get_last?-take n [] h = absurd (omega arith)
get_last?-take zero (x ∷ s) h = refl
get_last?-take (suc n) (x ∷ []) h = absurd (omega arith)
get_last?-take (suc n) (x ∷ y ∷ s) h = get_last?-take n (y ∷ s) (omega arith)

without_dot-le : (s : Text) (n : ℕ) → without_dot s n ≤ n
unfolding without_dot
without_dot-le s n = ground arith

without_dot-yes :
    (s : Text) (n : ℕ)
    → next_is (get_last? (take (suc n) s)) b'.' ≡ true
    → without_dot s (suc n) ≡ n
unfolding without_dot
without_dot-yes s n h = rw (h, without_dot) (omega arith)

pub without_dot-no :
    (s : Text) (n : ℕ) → next_is (get_last? (take n s)) b'.' ≡ false → without_dot s n ≡ n
unfolding without_dot
without_dot-no s n h = rw (h, without_dot) refl

dot_last : (xs : Text) → next_is (get_last? (xs ++ b'.' ∷ [])) b'.' ≡ true
unfolding next_is
dot_last xs = rw (get_last?-append xs b'.') refl

-- The cut name does not end with a dot, unless two of them stand before the break.
without_dot-last :
    (s : Text) (n : ℕ) (xs : Text)
    → n ≤ length s
    → take (without_dot s n) s ≡ xs ++ b'.' ∷ []
    → next_is (head? (drop (without_dot s n) s)) b'.' ≡ true
unfolding next_is
without_dot-last s zero xs h e =
    let w : without_dot s 0 ≡ 0 = omega (arith, without_dot-le s 0) in
    let e' : [] ≡ xs ++ b'.' ∷ [] = subst (λ k. take k s ≡ xs ++ b'.' ∷ []) w e in
    cc (ap get_last? e', get_last?-append xs b'.')
without_dot-last s (suc n) xs h e = elim (Bool-cases (next_is (get_last? (take (suc n) s)) b'.')) [
  | inl y ↦
      let w = without_dot-yes s n y in
      subst (λ k. next_is (head? (drop k s)) b'.' ≡ true) (sym w)
        (subst (λ o. next_is o b'.' ≡ true) (get_last?-take n s (omega arith)) y)
  | inr m ↦
      let e' : take (suc n) s ≡ xs ++ b'.' ∷ [] =
        subst (λ k. take k s ≡ xs ++ b'.' ∷ []) (without_dot-no s (suc n) m) e in
      cc (m, dot_last xs, ap (λ t. next_is (get_last? t) b'.') e')
]

-- A cut name with its checks passed.
checked :
    (name rest n r : Text)
    → check_name name rest ≡ read n r
    → (n ≡ name)
      × (r ≡ rest)
      × (is_empty name ≡ false)
      × (ends_with name (codes ".lock") ≡ false)
      × (text_eq name (codes "{base}") ≡ false)
      × (text_eq name (codes "@") ≡ false)
unfolding check_name
checked name rest n r h = ground arith

no_first_dot :
    (name : Text)
    → ((c : ℕ) (ys : Text) → name ≡ c ∷ ys → nat_eq c b'.' ≡ false)
    → next_is (head? name) b'.' ≡ false
unfolding next_is
no_first_dot [] h = refl
no_first_dot (c ∷ ys) h = h c ys refl

-- The part of the text before the break is a valid name, if it passes the checks.
cut-IsValid :
    (start : Text) (n : ℕ)
    → n ≤ length start
    → ((xs : Text) (c : ℕ) (zs : Text)
        → start ≡ xs ++ c ∷ zs
        → length xs < n
        → Kept false c (head? zs) × (is_empty xs ≡ true → nat_eq c b'.' ≡ false))
    → (name rest : Text)
    → check_name (take (without_dot start n) start) (drop (without_dot start n) start)
      ≡ read name rest
    → IsValid name
unfolding next_is
cut-IsValid start n h kept name rest e =
    let k = without_dot start n in
    let (en, er, not_empty, no_lock, no_base, no_at) =
      checked (take k start) (drop k start) name rest e in
    let whole : start ≡ name ++ drop k start =
      subst (λ t. start ≡ t ++ drop k start) (sym en) (sym (take-append-drop k start)) in
    let at : (xs : Text) (c : ℕ) (ys : Text)
        → name ≡ xs ++ c ∷ ys
        → Kept false c (head? (ys ++ drop k start)) × (is_empty xs ≡ true → nat_eq c b'.' ≡ false) =
      λ xs c ys f.
        kept xs c (ys ++ drop k start)
          (whole ∙ ap (λ t. t ++ drop k start) f ∙ append_assoc xs (c ∷ ys) (drop k start))
          (omega (
            arith,
            without_dot-le start n,
            ap length en,
            ap length f,
            length-take k start,
            length-append {0} xs (c ∷ ys),
          )) in
    record {
      not_empty = cc (en, not_empty);
      no_first_dot = no_first_dot name (λ c ys f. (at [] c ys f).1 refl);
      plain = λ xs c ys f. (at xs c ys f).0.plain (and_false (nat_eq c 92));
      no_two_dots = λ xs ys f. cc ((at xs b'.' (b'.' ∷ ys) f).0.no_two_dots refl);
      no_last_dot = λ xs f.
          cc ((at xs b'.' [] f).0.no_two_dots refl, without_dot-last start n xs h (sym en ∙ f));
      no_at_brace = λ xs ys f. cc ((at xs b'@' (b'{' ∷ ys) f).0.no_at_brace refl);
      no_dot_lock = cc (en, no_lock);
      not_base = cc (en, no_base);
      not_at = cc (en, no_at);
    }

-- A name that the parser `patch_name` reads is accepted by `validate`.
pub patch_name-IsValid :
    (input name rest : Text) → patch_name input ≡ read name rest → validate name ≡ none
unfolding patch_name
patch_name-IsValid input name rest h = (validate-IsValid name).1 (
    cut-IsValid (skip_escape input).0 (skip_escape input).1 (skip_escape-le input)
      (skipped-Kept input) name rest h)
