-- ===== src/Artifacts.antt =====
-- internal/modules/artifacts: the updates of stories, journeys, problems, ideas, tasks and feedback.
-- Workflow is the check that service.go makes on a patch, with the request validation of dto.go; Rows
-- is what the UPDATE statements of repo.go do to the status of a row, and
-- Updates puts them together.
pub mod Workflow
pub mod Kinds
pub mod Frozen
pub mod Sql
pub mod Rows
pub mod Updates
pub mod Lifecycle
pub mod Content
mod Tests
