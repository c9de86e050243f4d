-- ===== src/Usecase.antt =====
-- internal/usecase
pub mod Codes
pub mod Dates
pub mod Disbursements
pub mod Auth
pub mod Audit
pub mod Health
