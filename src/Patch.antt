-- ===== src/Patch.antt =====
-- The patches of a stack and how a user names them: src/patch.
pub mod Name
pub mod Outcome
pub mod Spec
pub mod Locator
pub mod Range
pub mod Messages
pub mod Parse
