-- ===== src/Http.antt =====
-- wrapper/src/transport_http.c: the transport that posts each message over HTTP and reads the answers
-- out of the responses. Sockets, the clock and the self-pipe are arguments of the functions that
-- use them.
mod Tests
pub mod Buffer
pub mod Sse
pub mod Chunk
pub mod Url
pub mod State
pub mod Input
pub mod Response
pub mod Body
pub mod Post
pub mod Connect
