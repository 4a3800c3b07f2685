-- ===== src/Update.antt =====
-- `Store`, `Transaction.load` and `prepare_boot` (runtime/sv08_state.py, runtime/sv08_transaction.py):
-- what the update path keeps in durable files, what it is told, and its operations on the registry.
pub mod Interfaces
pub mod Journals
pub mod Loading
pub mod Store
pub mod Generations
pub mod Boot
