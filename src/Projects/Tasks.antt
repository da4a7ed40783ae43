-- ===== src/Projects/Tasks.antt =====
-- internal/projects/task_types.go, task_service.go and task_postgres.go: tasks, the users responsible
-- for them and their revisions.
pub mod Types
pub mod Store
pub mod Changes
pub mod Service
pub mod Responsible
pub mod Outcomes
pub mod Record
pub mod Requests
pub mod Served
mod Tests
