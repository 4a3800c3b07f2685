-- ===== src/Transaction.antt =====
-- runtime/sv08_transaction.py: the crash-recoverable order of installation, boot selection and state.
-- Every method holds the state lock from its first read to its last write, except that `arm` reads
-- the journal once before it takes the lock.
pub mod Checks
pub mod Linked
pub mod Stage
pub mod Activation
pub mod Recovery
pub mod Rules
pub mod Journey
