-- ===== src/Text.antt =====
-- Texts as lists of characters: hexadecimal numbers, lines, and the ids and keys written in them.
pub mod Hex
pub mod Lines
pub mod Ids
