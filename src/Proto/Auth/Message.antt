-- ===== src/Proto/Auth/Message.antt =====
-- internal/proto/packet.go: the first byte of a FrameAuth payload, and the capability flag.
use supervpn.Base.{ℕ, ◌^◌}

abbrev pub auth_msg_hello : ℕ
auth_msg_hello = 0x01

abbrev pub auth_msg_ok : ℕ
auth_msg_ok = 0x02

abbrev pub auth_msg_error : ℕ
auth_msg_error = 0xFF

abbrev pub flag_fragment : ℕ
flag_fragment = 2 ^ 0
