-- ===== src/Fsm.antt =====
-- src/fsm.c and src/fsm.h: the state machine of RFC 1661 that LCP, IPCP, IPV6CP, CCP and ECP run.
pub mod Types
pub mod Options
pub mod Rfc
pub mod Core
pub mod Events
pub mod Receive
pub mod Step
pub mod View
pub mod Safety
pub mod Carry
pub mod Opening
pub mod Wire
pub mod Table
pub mod Retries
pub mod Link
pub mod Input
pub mod Examples
