-- ===== src/Reconciliation.antt =====
-- Matching bank transactions with the vouchers of the books (src/reconciliation.rs).
pub mod Engine
pub mod Sorting
pub mod Greedy
pub mod Candidates
pub mod Report
