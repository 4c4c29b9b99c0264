-- ===== src/Proto/Auth.antt =====
-- internal/proto/packet.go: the messages of the handshake. A Go string is its list of bytes.
pub mod Message
pub mod Hello
pub mod Reply
