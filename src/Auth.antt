-- ===== src/Auth.antt =====
-- src/auth.c, src/pap.c, src/chap.c: the authentication of a link and its peer.
pub mod Types
pub mod Core
pub mod Pap
pub mod Hash
pub mod Chap
pub mod Async
pub mod PapInput
pub mod ChapInput
pub mod Input
pub mod Challenge
pub mod Unexpected
pub mod Login
pub mod PapLogin
pub mod Secrets
pub mod Answer
pub mod Judge
pub mod Verdict
pub mod ChapLogin
pub mod Retries
pub mod Examples
