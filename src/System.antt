-- ===== src/System.antt =====
-- internal/system: the settings of the server, the check of DNS records, and the recovery at start-up.
pub mod Settings
pub mod Dns
pub mod Saved
pub mod Recovery
pub mod Reconciled
mod Tests
