-- ===== src/Repository.antt =====
-- internal/repository: the statements that each method runs, by table.
mod Errors
pub mod Disbursements
pub mod Auth
pub mod Audit
pub mod Health
unfoldable pub use Errors.{translate, is_duplicate_entry, page_offset}
