-- ===== src/Masks.antt =====
-- The masks of texts and plain parameters of path_compiler.cc, as the expressions that
-- `description::make` builds of them are run by `std::regex`.
pub mod Pieces
pub mod Reading
pub mod Running
pub mod Compiled
pub mod Matched
pub mod Fits
pub mod Written
pub mod Values
pub mod Matching
pub mod Paths
