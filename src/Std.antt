-- ===== src/Std.antt =====
-- What the program takes from Rust's standard library and computes with: UTF-8, paths, decimals.
pub mod HashMap
pub mod Utf8
pub mod FilePath
pub mod Decimal
