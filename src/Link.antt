-- ===== src/Link.antt =====
-- What a packet of an established session looks like on the wire, at both ends.
pub mod Packet
