-- ===== src/Chat.antt =====
-- The encryption service of Project1/Problem4: the buffered reading of lines in general.h and the
-- server of server/server.c.
pub mod Cipher
pub mod Reader
pub mod Lines
pub mod Serve
pub mod Admission
mod Tests
