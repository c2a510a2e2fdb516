-- ===== src/Uri.antt =====
-- libs/http-router/src/uri.cc and include/http-router/uri.hh
pub mod Target
pub mod Escape
pub mod Query
pub mod Parser
