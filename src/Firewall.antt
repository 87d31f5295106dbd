-- ===== src/Firewall.antt =====
-- internal/firewall and the bans of internal/store: the lists of addresses, the automatic bans and
-- the address of a client behind a proxy.
pub mod Net
pub mod Bans
pub mod Guard
pub mod RealIp
