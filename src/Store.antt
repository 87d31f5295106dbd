-- ===== src/Store.antt =====
-- internal/store: the tables as lists of rows, and the statements that the program issues on them.
pub mod State
pub mod Triple
pub mod Challenges
pub mod Totp
pub mod Trust
pub mod Oidc
