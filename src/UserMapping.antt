-- ===== src/UserMapping.antt =====
-- The plugins that map what is known of a user to an iRODS user.
pub mod Mapper
pub mod Matches
pub mod Claims
