-- ===== src/Patch/Parse/Parsed.antt =====
-- How a parser of src/patch/parse ends.
use stgit.Prelude.{Text}

-- A value with the rest of the input, an error from which an alternative may recover, or one that
-- ends the parse.
pub data Parsed (A : Type 0) : Type 0 where
  read : A → Text → Parsed A
  backtrack : Parsed A
  cut : Parsed A
