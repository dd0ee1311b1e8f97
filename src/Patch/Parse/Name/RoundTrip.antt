-- ===== src/Patch/Parse/Name/RoundTrip.antt =====
-- Valid names are read back by `patch_name` of src/patch/parse/name.rs.
use stgit.Prelude.{
  Text, ℕ, Bool, true, false, ◌&&◌, ◌≡◌, refl, ap, ◌∙◌, arith, [], ◌∷◌, ◌++◌, Option, none, some,
  head?, get_last?, is_empty, take, drop, length, nat_eq,
}
use stgit.Patch.Name.Validate.{
  is_ascii_whitespace, is_control, is_special, next_is, check_char, check_chars, validate,
}
use stgit.Patch.Parse.Name.Valid.{skip_escape-plain, without_dot-no}
use stgit.Patch.Parse.Parsed.{read}
use stgit.Patch.Parse.Name.{
  is_stop, next_is_dot_or_end, breaks, split_offset, is_escaped, check_name, patch_name,
}

-- What follows a name: nothing, or a character at which every name ends.
unfoldable pub stops : Text → Bool
stops [] = true
stops (c ∷ rest) = is_stop c

stop-next : (rest : Text) → stops rest ≡ true → next_is (head? rest) b'{' ≡ false
unfolding stops is_stop next_is
stop-next [] h = refl
stop-next (c ∷ rest) h = ground arith

stop-split : (rest : Text) → stops rest ≡ true → split_offset false rest ≡ 0
unfolding stops split_offset breaks
stop-split [] h = refl
stop-split (c ∷ rest) h = ground arith

-- An accepted character is no reason to break before it.
char-last :
    (first : Bool) (c : ℕ) (next : Option ℕ)
    → check_char c none ≡ none
    → next_is next b'{' ≡ false
    → (breaks first c next ≡ false) × (nat_eq c 92 ≡ false)
unfolding check_char breaks is_ascii_whitespace is_special is_stop next_is next_is_dot_or_end
char-last first c next h k = (ground arith, ground arith)

plain_char :
    (c d : ℕ)
    → check_char c (some d) ≡ none
    → (is_control c ≡ false) × (is_stop c ≡ false) × (nat_eq c 92 ≡ false)
unfolding check_char is_control is_ascii_whitespace is_special is_stop next_is
plain_char c d h = (ground arith, ground arith, ground arith)

no_pair :
    (c d : ℕ)
    → check_char c (some d) ≡ none
    → (nat_eq c b'.' && nat_eq d b'.' ≡ false) × (nat_eq c b'@' && nat_eq d b'{' ≡ false)
unfolding check_char next_is
no_pair c d h = (ground arith, ground arith)

cutoff :
    (first : Bool) (c d : ℕ)
    → is_control c ≡ false
    → is_stop c ≡ false
    → (nat_eq c b'.' && nat_eq d b'.') ≡ false
    → (nat_eq c b'@' && nat_eq d b'{') ≡ false
    → (first ≡ true → nat_eq c b'.' ≡ false)
    → breaks first c (some d) ≡ false
unfolding breaks next_is next_is_dot_or_end
cutoff true c d p q r t k = rw (p, q, k refl, t) refl
cutoff false c d p q r t k = rw (p, q, r, t) refl

char-before :
    (first : Bool) (c d : ℕ)
    → check_char c (some d) ≡ none
    → (first ≡ true → nat_eq c b'.' ≡ false)
    → (breaks first c (some d) ≡ false) × (nat_eq c 92 ≡ false)
unfolding breaks next_is next_is_dot_or_end
char-before first c d h k =
    let (no_control, no_stop, no_escape) = plain_char c d h in
    let (no_dots, no_brace) = no_pair c d h in
    (cutoff first c d no_control no_stop no_dots no_brace k, no_escape)

checked-head :
    (c : ℕ) (name : Text)
    → check_chars (c ∷ name) ≡ none
    → (check_char c (head? name) ≡ none) × (check_chars name ≡ none)
unfolding check_chars
checked-head c name h = ground arith

split_offset-name :
    (first : Bool) (name rest : Text)
    → check_chars name ≡ none
    → stops rest ≡ true
    → (first ≡ true → next_is (head? name) b'.' ≡ false)
    → split_offset false rest ≡ 0
    → is_empty name ≡ false
    → split_offset first (name ++ rest) ≡ length name
unfolding split_offset next_is
split_offset-name first [] rest h s f z e = cc
split_offset-name first (c ∷ []) rest h s f z e =
    let (ok_c, ok_rest) = checked-head c [] h in
    ground (arith, char-last first c (head? rest) ok_c (stop-next rest s))
split_offset-name first (c ∷ d ∷ name) rest h s f z e =
    let (ok_c, ok_rest) = checked-head c (d ∷ name) h in
    let more = split_offset-name false (d ∷ name) rest ok_rest s (λ g. cc) z refl in
    ground (arith, char-before first c d ok_c f, more)

last-not-dot : (name : Text) → check_chars name ≡ none → next_is (get_last? name) b'.' ≡ false
unfolding next_is check_char
last-not-dot [] h = refl
last-not-dot (c ∷ []) h = ground (arith, checked-head c [] h)
last-not-dot (c ∷ d ∷ name) h = last-not-dot (d ∷ name) (checked-head c (d ∷ name) h).1

take-name : (name rest : Text) → take (length name) (name ++ rest) ≡ name
take-name [] rest = refl
take-name (c ∷ name) rest = ap (◌∷◌ c) (take-name name rest)

drop-name : (name rest : Text) → drop (length name) (name ++ rest) ≡ rest
drop-name [] rest = refl
drop-name (c ∷ name) rest = drop-name name rest

is_escaped-plain : (c : ℕ) (ys : Text) → nat_eq c 92 ≡ false → is_escaped (c ∷ ys) ≡ false
unfolding is_escaped
is_escaped-plain c ys h = rw h refl

not_escaped :
    (name rest : Text)
    → check_chars name ≡ none
    → is_empty name ≡ false
    → is_escaped (name ++ rest) ≡ false
unfolding next_is
not_escaped [] rest h e = cc
not_escaped (c ∷ []) rest h e =
    is_escaped-plain c rest (char-last false c none (checked-head c [] h).0 refl).1
not_escaped (c ∷ d ∷ name) rest h e =
    is_escaped-plain c (d ∷ name ++ rest) (plain_char c d (checked-head c (d ∷ name) h).0).2

-- What `validate` accepts.
validated :
    (name rest : Text)
    → validate name ≡ none
    → (check_chars name ≡ none)
      × (is_empty name ≡ false)
      × (next_is (head? name) b'.' ≡ false)
      × (check_name name rest ≡ read name rest)
unfolding validate check_name
validated name rest h = ground arith

-- A name that `validate` accepts, followed by nothing or by a space, delete or one of `~^:/?[*`, is
-- read by the parser `patch_name`, which leaves what follows.
pub patch_name-read :
    (name rest : Text)
    → validate name ≡ none
    → stops rest ≡ true
    → patch_name (name ++ rest) ≡ read name rest
unfolding patch_name
patch_name-read name rest h s =
    let (chars, not_empty, no_dot, passes) = validated name rest h in
    let split =
      split_offset-name true name rest chars s (λ t. no_dot) (stop-split rest s) not_empty in
    let start = skip_escape-plain (name ++ rest) (not_escaped name rest chars not_empty) in
    let kept = take-name name rest in
    let dot : next_is (get_last? (take (length name) (name ++ rest))) b'.' ≡ false =
      ap (λ t. next_is (get_last? t) b'.') kept ∙ last-not-dot name chars in
    rw (start, split, without_dot-no (name ++ rest) (length name) dot, kept, drop-name name rest)
      passes
