-- ===== src/Wire.antt =====
-- EdoyumIMServer/BinaryReader.h and BinaryReader.cpp: the reader and the writer of a message body.
pub mod Compress
pub mod Writer
pub mod Reader
pub mod Strings
