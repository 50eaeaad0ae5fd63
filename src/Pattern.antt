-- ===== src/Pattern.antt =====
-- include/spdlog/pattern_formatter.h and pattern_formatter-inl.h: patterns, the formatters that a
-- pattern is compiled to, and what they print.
pub mod Time
pub mod Fields
pub mod Source
pub mod Full
pub mod Formatter
pub mod Compile
pub mod Spec
pub mod Rounds
pub mod Language
pub mod Readback
pub mod Format
pub mod Clones
pub mod Growth
pub mod ColorRange
pub mod Caches
pub mod Fixed
mod Tests
