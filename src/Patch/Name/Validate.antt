-- ===== src/Patch/Name/Validate.antt =====
-- `PatchName::validate` of src/patch/name.rs.
pub mod Sound
use stgit.Prelude.{
  Text, ℕ, ◌-◌, Bool, true, false, ◌&&◌, ◌||◌, List, [], ◌∷◌, Option, none, some, head?, is_empty,
  drop, length, if◌then◌else◌, leb, ltb, nat_eq, text_eq, codes,
}

-- The errors of `validate`, in the order of its tests.
pub data Invalid : Type 0 where
  empty starts_with_dot two_dots ends_with_dot at_brace whitespace control : Invalid
  forbidden : ℕ → Invalid
  dot_lock is_base is_at : Invalid

-- `char::is_ascii_whitespace`
unfoldable pub is_ascii_whitespace : ℕ → Bool
is_ascii_whitespace c = nat_eq c 32 || (nat_eq c 9 || (nat_eq c 10 || (nat_eq c 12 || nat_eq c 13)))

-- `char::is_control`
unfoldable pub is_control : ℕ → Bool
is_control c = ltb c 32 || (leb 127 c && leb c 159)

-- The characters `~ ^ : / \ ? [ *` and delete.
unfoldable pub is_special : ℕ → Bool
is_special c =
    nat_eq c b'~'
    || (nat_eq c b'^'
        || (nat_eq c b':'
            || (nat_eq c b'/'
                || (nat_eq c 92
                    || (nat_eq c b'?' || (nat_eq c b'[' || (nat_eq c b'*' || nat_eq c 127)))))))

unfoldable pub next_is : Option ℕ → ℕ → Bool
next_is (some next) c = nat_eq next c
next_is none c = false

-- One round of the loop, at a character and the one that `peek` shows.
unfoldable pub check_char : ℕ → Option ℕ → Option Invalid
unfolding next_is
check_char c next =
    if nat_eq c b'.'
    then (if next_is next b'.'
        then some two_dots
        else elim next [ none ↦ some ends_with_dot | some n ↦ none ])
    else if nat_eq c b'@' && next_is next b'{'
    then some at_brace
    else if is_ascii_whitespace c
    then some whitespace
    else if is_control c
    then some control
    else if is_special c
    then some (forbidden c)
    else none

unfoldable pub check_chars : Text → Option Invalid
check_chars [] = none
check_chars (c ∷ rest) =
    let later = check_chars rest in
    elim (check_char c (head? rest)) [ some e ↦ some e | none ↦ later ]

-- `str::ends_with`
unfoldable pub ends_with : Text → Text → Bool
ends_with name suffix = text_eq (drop (length name - length suffix) name) suffix

-- `none` is `Ok(())`.
unfoldable pub validate : Text → Option Invalid
unfolding check_chars check_char ends_with
validate name =
    if is_empty name
    then some empty
    else if next_is (head? name) b'.'
    then some starts_with_dot
    else elim (check_chars name) [
      | some e ↦ some e
      | none ↦
          if ends_with name (codes ".lock")
          then some dot_lock
          else if text_eq name (codes "{base}")
          then some is_base
          else if text_eq name (codes "@")
          then some is_at
          else none
    ]
