-- ===== src/Mcp.antt =====
-- wrapper/src/mcp.h and wrapper/src/mcp.c: ids, messages, the envelope scanner, the line reader and
-- the messages that the wrapper builds itself.
pub mod Message
pub mod CJson
pub mod Scan
pub mod Values
pub mod Envelope
pub mod Parse
pub mod Build
pub mod Reader
mod Tests
