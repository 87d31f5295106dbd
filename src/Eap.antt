-- ===== src/Eap.antt =====
-- internal/radiusserver/eap: the EAP (RFC 3748), EAP-TTLS (RFC 5281) and PEAPv0 codecs.
pub mod Bytes
pub mod Packet
pub mod Avp
pub mod Flags
pub mod Ttls
pub mod Assembler
pub mod Peap
pub mod Fragment
pub mod Mschap
