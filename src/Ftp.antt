-- ===== src/Ftp.antt =====
-- The FTP backend: the parsers that both clients share, the line protocol, and the synchronous client.
mod Tests
pub mod Common
pub mod Wire
pub mod Client
