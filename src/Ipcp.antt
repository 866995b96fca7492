-- ===== src/Ipcp.antt =====
-- src/ipcp.c: the negotiation of IPv4 addresses, of header compression and of name servers.
pub mod Types
pub mod Layer
pub mod Decode
pub mod Leases
pub mod Keeping
pub mod Session
pub mod Returned
pub mod Pretend
pub mod Allowed
pub mod Examples
