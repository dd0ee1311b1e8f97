-- ===== src/Patch/Parse/Name.antt =====
-- `patch_name` of src/patch/parse/name.rs. The source cuts the text at byte positions between
-- characters; here positions count characters.
pub mod Valid
pub mod RoundTrip
use stgit.Prelude.{
  Text, ℕ, zero, suc, ◌-◌, Bool, true, false, ◌&&◌, ◌||◌, List, [], ◌∷◌, Option, none, some, head?,
  get_last?, is_empty, take, drop, if◌then◌else◌, nat_eq, text_eq, codes,
}
use stgit.Patch.Name.{PatchName}
use stgit.Patch.Name.Validate.{is_control, next_is, ends_with}
use stgit.Patch.Parse.Parsed.{Parsed, read, backtrack, cut}

-- The characters at which a name always ends: space, `~ ^ : / ? [ *` and delete.
unfoldable pub is_stop : ℕ → Bool
is_stop c =
    nat_eq c 32
    || (nat_eq c b'~'
        || (nat_eq c b'^'
            || (nat_eq c b':'
                || (nat_eq c b'/'
                    || (nat_eq c b'?' || (nat_eq c b'[' || (nat_eq c b'*' || nat_eq c 127)))))))

-- `matches!(peek_next(), Some('.') | None)`
unfoldable pub next_is_dot_or_end : Option ℕ → Bool
next_is_dot_or_end (some c) = nat_eq c b'.'
next_is_dot_or_end none = true

-- The test under which the loop breaks at a character other than a backslash.
unfoldable pub breaks : Bool → ℕ → Option ℕ → Bool
unfolding is_stop next_is_dot_or_end
breaks first c next =
    is_control c
    || (is_stop c
        || ((nat_eq c b'.' && (first || next_is_dot_or_end next))
            || (nat_eq c b'@' && next_is next b'{')))

-- The loop: the number of characters before the one at which it breaks.
unfoldable pub split_offset : Bool → Text → ℕ
unfolding breaks
split_offset first [] = 0
split_offset first (c ∷ rest) =
    let more = suc (split_offset false rest) in
    if nat_eq c 92
    then (if first && next_is (head? rest) b'-' then more else 0)
    else if breaks first c (head? rest)
    then 0
    else more

-- `start_index == 1`: the text starts with an escaped dash.
unfoldable pub is_escaped : Text → Bool
is_escaped [] = false
is_escaped (c ∷ rest) = nat_eq c 92 && next_is (head? rest) b'-'

-- What is left of the input when the backslash is skipped, and the position of the break in it.
unfoldable pub skip_escape : Text → Text × ℕ
unfolding is_escaped split_offset
skip_escape input =
    if is_escaped input
    then (drop 1 input, split_offset true input - 1)
    else (input, split_offset true input)

-- A dot before the break is not part of the name.
unfoldable pub without_dot : Text → ℕ → ℕ
without_dot input offset =
    if next_is (get_last? (take offset input)) b'.' then offset - 1 else offset

-- The checks of the name that was cut off.
unfoldable pub check_name : Text → Text → Parsed PatchName
check_name name rest =
    if is_empty name
    then backtrack
    else if ends_with name (codes ".lock")
    then cut
    else if text_eq name (codes "@") || text_eq name (codes "{base}")
    then backtrack
    else read name rest

unfoldable pub patch_name : Text → Parsed PatchName
unfolding skip_escape without_dot check_name
patch_name input =
    let start = (skip_escape input).0 in
    let offset = without_dot start (skip_escape input).1 in
    check_name (take offset start) (drop offset start)
