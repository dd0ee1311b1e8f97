-- ===== src/Stack.antt =====
-- src/stack.
pub mod Access
pub mod State
pub mod Repository
pub mod Commit
pub mod Transaction
