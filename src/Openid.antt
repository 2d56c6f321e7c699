-- ===== src/Openid.antt =====
-- core/src/openid.cpp: the validation of access tokens.
pub mod Introspection
pub mod Algorithms
pub mod Accepted
pub mod Allowed
pub mod Verified
