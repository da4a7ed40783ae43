-- ===== src/Projects.antt =====
-- internal/projects: projects, their members and their geofences.
pub mod Types
pub mod Store
pub mod Members
pub mod Service
pub mod Fences
pub mod Membership
pub mod Guard
pub mod Writes
pub mod Tests
pub mod Tasks
