-- ===== src/Witness.antt =====
-- Concrete inputs at which the results hold.
pub mod Data
pub mod Auth
pub mod Eap
pub mod License
pub mod Firewall
pub mod RateLimit
pub mod Exchange
pub mod Accepting
pub mod Access
pub mod Oidc
