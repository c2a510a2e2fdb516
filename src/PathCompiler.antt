-- ===== src/PathCompiler.antt =====
-- libs/http-router/src/path_compiler.cc and include/http-router/path_compiler.hh
pub mod Key
pub mod Escape
pub mod Mask
pub mod Describe
pub mod Matcher
