-- ===== src/Auth.antt =====
-- internal/auth: the core that checks passwords, codes and push confirmations.
pub mod Config
pub mod Audit
pub mod Totp
pub mod Codes
pub mod Split
pub mod Login
pub mod Radius
