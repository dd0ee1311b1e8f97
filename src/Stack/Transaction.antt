-- ===== src/Stack/Transaction.antt =====
-- src/stack/transaction.
pub mod Defs
pub mod Ends
pub mod Lists
pub mod Names
pub mod Merge
pub mod Push
pub mod Reorder
pub mod Consistent
pub mod Effects
pub mod Builder
pub mod Execute
pub mod Session
