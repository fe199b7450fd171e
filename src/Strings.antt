-- ===== src/Strings.antt =====
-- What the servers use of the C library on texts: numbers in decimal, tokens and lines.
pub mod Decimal
pub mod Tokens
pub mod Lines
pub mod Scan
