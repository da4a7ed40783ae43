-- ===== src/Migrations.antt =====
-- internal/migrations/migrations.go: the embedded files, the checksum ledger, and the runner.
pub mod Load
pub mod Runner
pub mod Upgrade
pub mod Order
mod Tests
