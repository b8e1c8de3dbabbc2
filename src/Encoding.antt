-- ===== src/Encoding.antt =====
-- encoding: text forms of bytes.
pub mod Base64
pub mod Parse
pub mod Words
pub mod Saltpack
pub mod Codecs
pub mod Is
