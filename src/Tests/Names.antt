-- ===== src/Tests/Names.antt =====
-- Patch names that are accepted and rejected.
use stgit.Prelude.{◌≡◌, ◌↔◌, refl, none, some, codes, text_eq}
use stgit.Patch.Name.Validate.{
  validate, two_dots, dot_lock, is_ascii_whitespace, is_control, is_special,
}
use stgit.Patch.Name.Validate.Sound.{IsValid, validate-IsValid}

validate-IsValid_example : (validate (codes "fix-1") ≡ none) ↔ IsValid (codes "fix-1")
validate-IsValid_example = validate-IsValid (codes "fix-1")

fix_accepted : validate (codes "fix-1") ≡ none
unfolding validate text_eq is_ascii_whitespace is_control is_special
fix_accepted = refl

dots_rejected : validate (codes "a..b") ≡ some two_dots
unfolding validate is_ascii_whitespace is_control is_special
dots_rejected = refl

lock_rejected : validate (codes "a.lock") ≡ some dot_lock
unfolding validate text_eq is_ascii_whitespace is_control is_special
lock_rejected = refl
