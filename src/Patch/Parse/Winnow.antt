-- ===== src/Patch/Parse/Winnow.antt =====
-- The winnow library: what the parsers of src/patch/parse call, as a record of its combinators, and
-- what its documentation says of them, as equations.
use stgit.Prelude.{
  Text, ℕ, suc, ◌-◌, ◌<◌, Bool, false, ◌&&◌, ◌||◌, ◌≡◌, Option, none, some, List, [], ◌∷◌, ◌++◌,
  length, take, drop, if◌then◌else◌, leb, text_eq, is_empty,
}
use stgit.Patch.Parse.Parsed.{Parsed, read, backtrack, cut}

-- `impl FnMut(&mut &str) -> ModalResult<A>`
abbrev pub Parser : Type 0 → Type 0
Parser A = Text → Parsed A

pub record Winnow : Type 1 where
  pub alt : {A : Type 0} → Parser A → Parser A → Parser A
  pub opt : {A : Type 0} → Parser A → Parser (Option A)
  -- A tuple of two parsers.
  pub pair : {A B : Type 0} → Parser A → Parser B → Parser (A × B)
  pub map : {A B : Type 0} → (A → B) → Parser A → Parser B
  -- `try_map`, with `none` for an error of the function.
  pub try_map : {A B : Type 0} → (A → Option B) → Parser A → Parser B
  -- `take`: the text that the parser read.
  pub recognize : {A : Type 0} → Parser A → Parser Text
  -- `repeat(0.., _)`
  pub repeat : {A : Type 0} → Parser A → Parser (List A)
  -- A text or a character used as a parser.
  pub literal : Text → Parser Text
  pub digit1 : Parser Text
  pub hex_digit1 : Parser Text

module _ {A : Type 0} where
  abbrev pub or_else : Parsed A → Parsed A → Parsed A
  or_else (read a rest) other = read a rest
  or_else backtrack other = other
  or_else cut other = cut

  abbrev pub optional : Text → Parsed A → Parsed (Option A)
  optional input (read a rest) = read (some a) rest
  optional input backtrack = read none input
  optional input cut = cut

  abbrev pub taken : Text → Parsed A → Parsed Text
  taken input (read a rest) = read (take (length input - length rest) input) rest
  taken input backtrack = backtrack
  taken input cut = cut

  abbrev pub read_or_backtrack : Text → Option A → Parsed A
  read_or_backtrack rest none = backtrack
  read_or_backtrack rest (some a) = read a rest

  abbrev pub prepend : A → Parsed (List A) → Parsed (List A)
  prepend a (read more rest) = read (a ∷ more) rest
  prepend a backtrack = backtrack
  prepend a cut = cut

module _ {A B : Type 0} where
  abbrev pub mapped : (A → B) → Parsed A → Parsed B
  mapped f (read a rest) = read (f a) rest
  mapped f backtrack = backtrack
  mapped f cut = cut

  abbrev pub try_mapped : (A → Option B) → Parsed A → Parsed B
  try_mapped f (read a rest) = read_or_backtrack rest (f a)
  try_mapped f backtrack = backtrack
  try_mapped f cut = cut

abbrev pub then_parse : {A B : Type 0} → Parser B → Parsed A → Parsed (A × B)
then_parse q (read a rest) = mapped (λ b. (a, b)) (q rest)
then_parse q backtrack = backtrack
then_parse q cut = cut

-- `parse`: the parser must read the whole text. `none` is an error.
abbrev pub whole : {A : Type 0} → Parsed A → Option A
whole (read a []) = some a
whole _ = none

unfoldable pub is_digit : ℕ → Bool
is_digit c = leb b'0' c && leb c b'9'

unfoldable pub is_hex_digit : ℕ → Bool
unfolding is_digit
is_hex_digit c = is_digit c || ((leb b'a' c && leb c b'f') || (leb b'A' c && leb c b'F'))

-- The number of characters at the front that pass a test.
unfoldable pub run : (ℕ → Bool) → Text → ℕ
run p [] = 0
run p (c ∷ rest) = let more = run p rest in if p c then suc more else 0

-- One character that passes the test, or more.
abbrev pub run1 : (ℕ → Bool) → Text → Parsed Text
run1 p input =
    let n = run p input in
    if is_empty (take n input) then backtrack else read (take n input) (drop n input)

-- What the documentation promises.
pub record IsWinnow (w : Winnow) : Type 1 where
  pub alt_lem : {A : Type 0} (p q : Parser A) (s : Text) → w.alt p q s ≡ or_else (p s) (q s)
  pub opt_lem : {A : Type 0} (p : Parser A) (s : Text) → w.opt p s ≡ optional s (p s)
  pub pair_lem :
      {A B : Type 0} (p : Parser A) (q : Parser B) (s : Text) → w.pair p q s ≡ then_parse q (p s)
  pub map_lem : {A B : Type 0} (f : A → B) (p : Parser A) (s : Text) → w.map f p s ≡ mapped f (p s)
  pub try_map_lem :
      {A B : Type 0} (f : A → Option B) (p : Parser A) (s : Text)
      → w.try_map f p s ≡ try_mapped f (p s)
  pub recognize_lem : {A : Type 0} (p : Parser A) (s : Text) → w.recognize p s ≡ taken s (p s)
  pub repeat-done :
      {A : Type 0} (p : Parser A) (s : Text) → p s ≡ backtrack → w.repeat p s ≡ read [] s
  pub repeat-more :
      {A : Type 0} (p : Parser A) (a : A) (s rest : Text)
      → p s ≡ read a rest
      → length rest < length s
      → w.repeat p s ≡ prepend a (w.repeat p rest)
  pub literal-here : (t s : Text) → w.literal t (t ++ s) ≡ read t s
  pub literal-other :
      (t s : Text) → text_eq (take (length t) s) t ≡ false → w.literal t s ≡ backtrack
  pub digit1_lem : (s : Text) → w.digit1 s ≡ run1 is_digit s
  pub hex_digit1_lem : (s : Text) → w.hex_digit1 s ≡ run1 is_hex_digit s
