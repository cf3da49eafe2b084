-- ===== src/Reporting.antt =====
-- Reports of stored runs (src/platval/reporting).
pub mod View
pub mod Names
pub mod Markdown
pub mod Service
