-- ===== src/Patch/Name/Validate/Sound.antt =====
-- What the names are that `PatchName::validate` of src/patch/name.rs accepts.
use stgit.Prelude.{
  Text, ℕ, true, false, ◌||◌, ◌≡◌, ◌↔◌, refl, sym, ap, ◌∙◌, arith, [], ◌∷◌, ◌++◌, Option, none,
  some, head?, inl, inr, nat_eq, nat_eq_iff, Bool-cases, text_eq, codes, is_empty,
}
use stgit.Patch.Name.Validate.{
  is_ascii_whitespace, is_control, is_special, next_is, check_char, check_chars, ends_with,
  validate,
}

-- A name that git accepts as the last part of a reference.
pub record IsValid (name : Text) : Type 0 where
  pub not_empty : is_empty name ≡ false
  pub no_first_dot : next_is (head? name) b'.' ≡ false
  pub plain :
      (xs : Text) (c : ℕ) (ys : Text)
      → name ≡ xs ++ c ∷ ys
      → (is_ascii_whitespace c || (is_control c || is_special c)) ≡ false
  pub no_two_dots : (xs ys : Text) → name ≡ xs ++ b'.' ∷ b'.' ∷ ys → ⊥
  pub no_last_dot : (xs : Text) → name ≡ xs ++ b'.' ∷ [] → ⊥
  pub no_at_brace : (xs ys : Text) → name ≡ xs ++ b'@' ∷ b'{' ∷ ys → ⊥
  pub no_dot_lock : ends_with name (codes ".lock") ≡ false
  pub not_base : text_eq name (codes "{base}") ≡ false
  pub not_at : text_eq name (codes "@") ≡ false

-- Every character of an accepted text is accepted before the one that follows it.
check_chars-split :
    (xs : Text) (c : ℕ) (ys : Text)
    → check_chars (xs ++ c ∷ ys) ≡ none
    → check_char c (head? ys) ≡ none
unfolding check_chars
check_chars-split [] c ys h = ground arith
check_chars-split (x ∷ xs) c ys h = ground (arith, check_chars-split xs c ys)

char-plain :
    (c : ℕ) (next : Option ℕ)
    → check_char c next ≡ none
    → (is_ascii_whitespace c || (is_control c || is_special c)) ≡ false
unfolding check_char is_ascii_whitespace is_control is_special next_is
char-plain c next h = ground arith

accepted : (name : Text) → validate name ≡ none → check_chars name ≡ none
unfolding validate
accepted name h = ground arith

dot-dot : check_char b'.' (some b'.') ≡ none → ⊥
unfolding check_char next_is
dot-dot h = cc

dot-end : check_char b'.' none ≡ none → ⊥
unfolding check_char next_is
dot-end h = cc

at-brace : check_char b'@' (some b'{') ≡ none → ⊥
unfolding check_char next_is
at-brace h = cc

IsValid-accepted : (name : Text) → validate name ≡ none → IsValid name
unfolding validate
IsValid-accepted name h =
    let at : (xs : Text) (c : ℕ) (ys : Text)
        → name ≡ xs ++ c ∷ ys
        → check_char c (head? ys) ≡ none =
      λ xs c ys e. check_chars-split xs c ys (ap check_chars (sym e) ∙ accepted name h) in
    record {
      not_empty = ground arith;
      no_first_dot = ground arith;
      plain = λ xs c ys e. char-plain c (head? ys) (at xs c ys e);
      no_two_dots = λ xs ys e. dot-dot (at xs b'.' (b'.' ∷ ys) e);
      no_last_dot = λ xs e. dot-end (at xs b'.' [] e);
      no_at_brace = λ xs ys e. at-brace (at xs b'@' (b'{' ∷ ys) e);
      no_dot_lock = ground arith;
      not_base = ground arith;
      not_at = ground arith;
    }

-- A text is accepted if each character is, before the one that follows it.
check_chars-all :
    (name : Text)
    → ((xs : Text) (c : ℕ) (ys : Text) → name ≡ xs ++ c ∷ ys → check_char c (head? ys) ≡ none)
    → check_chars name ≡ none
unfolding check_chars
check_chars-all [] h = refl
check_chars-all (x ∷ name) h =
    ground
      (arith, h [] x name refl, check_chars-all name (λ xs c ys e. h (x ∷ xs) c ys (ap (◌∷◌ x) e)))

char-last :
    (c : ℕ)
    → (is_ascii_whitespace c || (is_control c || is_special c)) ≡ false
    → nat_eq c b'.' ≡ false
    → check_char c none ≡ none
unfolding check_char next_is
char-last c h d = ground arith

char-before :
    (c next : ℕ)
    → (is_ascii_whitespace c || (is_control c || is_special c)) ≡ false
    → (nat_eq c b'.' ≡ true → nat_eq next b'.' ≡ false)
    → (nat_eq c b'@' ≡ true → nat_eq next b'{' ≡ false)
    → check_char c (some next) ≡ none
unfolding check_char next_is
char-before c next h d b = ground arith

not_char : (c d : ℕ) → (c ≡ d → ⊥) → nat_eq c d ≡ false
not_char c d h = elim (Bool-cases (nat_eq c d)) [
  | inl e ↦ absurd (h ((nat_eq_iff c d).0 e))
  | inr e ↦ e
]

IsValid-check_char :
    {name : Text}
    → IsValid name
    → (xs : Text) (c : ℕ) (ys : Text) → name ≡ xs ++ c ∷ ys
    → check_char c (head? ys) ≡ none
IsValid-check_char v xs c [] e =
    char-last c (v.plain xs c [] e) (not_char c b'.' (λ s. v.no_last_dot xs (cc (e, s))))
IsValid-check_char v xs c (y ∷ ys) e =
    char-before c y (v.plain xs c (y ∷ ys) e)
      (λ f.
        not_char y b'.'
          (λ s. let dot = (nat_eq_iff c b'.').0 f in v.no_two_dots xs ys (cc (e, s, dot))))
      (λ f.
        not_char y b'{'
          (λ s. let at = (nat_eq_iff c b'@').0 f in v.no_at_brace xs ys (cc (e, s, at))))

-- `validate` accepts a name exactly if it is not empty, does not start or end with a dot, has no
-- two dots in a row, no `@{`, no whitespace, control or special character, does not end with
-- `.lock`, and is neither `{base}` nor `@`.
pub validate-IsValid : (name : Text) → (validate name ≡ none) ↔ IsValid name
unfolding validate
validate-IsValid name = (
  IsValid-accepted name,
  λ v. ground (
    arith,
    v.not_empty,
    v.no_first_dot,
    check_chars-all name (IsValid-check_char v),
    v.no_dot_lock,
    v.not_base,
    v.not_at,
  ),
)
