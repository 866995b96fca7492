-- ===== src/Lcp.antt =====
-- src/lcp.c: the Link Control Protocol as a layer of the state machine.
pub mod Types
pub mod Phase
pub mod Request
pub mod Reply
pub mod Cases
pub mod Decode
pub mod Layer
pub mod Agree
pub mod Answer
pub mod Acked
pub mod Requested
pub mod Rejected
pub mod Choice
pub mod Examples
