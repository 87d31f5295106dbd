-- ===== src/Exchange.antt =====
-- internal/radiusserver/eapsession.go and eapauth.go: an EAP authentication over RADIUS, from the
-- identity to the Access-Accept, and the sessions that it is kept in between two packets.
pub mod Session
pub mod Table
pub mod Server
pub mod Trust
pub mod Reply
pub mod Ttls
pub mod Factors
pub mod Inner
pub mod Peap
pub mod Handler
pub mod Signature
pub mod Access
