-- ===== src/Tests.antt =====
-- Runs of the transaction's methods on a small stack, and the theorems at that stack.
pub mod Data
mod Moves
mod Sessions
mod Renames
mod Names
mod Parsers
mod Locators
mod Commands
