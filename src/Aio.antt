-- ===== src/Aio.antt =====
-- The asynchronous backends, src/gufo/blob/aio. A coroutine is a function on the state of its object:
-- what is stated is about one task that awaits each call, unless a file says otherwise.
pub mod Open
pub mod Ftp
pub mod Memory
pub mod S3
pub mod Wrapper
