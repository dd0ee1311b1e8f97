-- ===== src/Patch/Name.antt =====
-- src/patch/name.rs and the type `PatchName` of src/patch/mod.rs.
pub mod Validate
use stgit.Prelude.{Text, Bool, eq_ignore_ascii_case}

-- `struct PatchName(String)`
abbrev pub PatchName : Type 0
PatchName = Text

unfoldable pub collides : PatchName → PatchName → Bool
collides self other = eq_ignore_ascii_case self other
