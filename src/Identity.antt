-- ===== src/Identity.antt =====
-- internal/identity: accounts, sessions, login throttling and their audit.
pub mod Types
pub mod Context
pub mod Password
pub mod Throttle
pub mod Sessions
pub mod Accounts
pub mod Service
pub mod Changes
pub mod Users
pub mod Ops
pub mod Atomic
pub mod Invariant
pub mod Reach
pub mod Trail
pub mod Revocation
pub mod Blocking
pub mod Counting
pub mod Verifier
pub mod Access
pub mod Validation
pub mod Tests
mod PlatformTests
