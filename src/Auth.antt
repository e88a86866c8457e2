-- ===== src/Auth.antt =====
-- internal/auth: sessions in signed cookies, and the users.
pub mod Base64
pub mod Sessions
pub mod Users
mod Tests
