-- ===== src/Server.antt =====
-- src/server.c: the request reader, the private-file boundary and the responses.
pub mod HeaderBlock
pub mod ContentLength
pub mod FindHeader
pub mod Pages
pub mod Response
pub mod Framing
pub mod Reader
pub mod Request
pub mod CustomError
pub mod Locate
pub mod Handler
pub mod PrivatePath
pub mod Root
