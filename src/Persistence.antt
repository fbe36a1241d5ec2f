-- ===== src/Persistence.antt =====
-- The tables (persistence/models.py and the constraints of migrations/versions) and the
-- repositories over them (persistence/repositories.py, persistence/rls.py).
pub mod Tables
pub mod Transactions
pub mod Inserts
pub mod Notes
pub mod Jobs
pub mod Effects
pub mod Ownership
pub mod Accounts
