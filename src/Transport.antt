-- ===== src/Transport.antt =====
-- internal/transport: the framing of packets on a stream, and the parser of TLS hellos.
pub mod Tcp
pub mod Hello
mod Tests
