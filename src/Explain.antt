-- ===== src/Explain.antt =====
-- The analysis of query plans: explain/.
pub mod Plans
pub mod Policy
pub mod Runs
