-- ===== src/Text.antt =====
-- Go strings as lists of bytes, with what the program uses of the standard package unicode/utf8.
-- A text that the program only compares (an id, a JID, a status) is a native `String` elsewhere.
pub mod Utf8
pub mod Cut
pub mod Trim
pub mod Search
