-- ===== src/Application.antt =====
-- internal/application: the applications that liteploy manages.
pub mod Types
pub mod Domain
pub mod Validation
pub mod Service
pub mod Projects
pub mod Samples
mod Tests
