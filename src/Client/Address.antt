-- ===== src/Client/Address.antt =====
-- internal/vpnclient/client.go: ServerHost, deriveSecondaryAddr, resolveTCPAddr and wireHashHex.
-- internal/auth/auth.go: WireHash.
pub mod Hex
use supervpn.Base.{
  ℕ, suc, ◌+◌, ◌*◌, ◌/◌, ◌%◌, List, [], ◌∷◌, is_empty, if◌then◌else◌, none, some, get_or, set,
  replicate,
}
use supervpn.Base.Ints.{atoi, itoa, next_int}
use supervpn.Base.Net.{cut_last, split_host_port, join_host_port}
use supervpn.Base.Text.{codes, hex_encode}
use supervpn.Crypto.Keys.{KeySource}

-- All before the last colon, unless that is nothing.
unfoldable pub server_host : List ℕ → List ℕ
server_host addr = elim (cut_last b':' addr) [
  | none ↦ addr
  | some (host, rest) ↦ if is_empty host then addr else host
]

-- The same host with the next port; "" where the address cannot be read.
unfoldable pub derive_secondary_addr : List ℕ → List ℕ
derive_secondary_addr addr = elim (split_host_port addr) [
  | none ↦ []
  | some (host, port_str) ↦ (elim (atoi port_str) [
    | none ↦ []
    | some port ↦ join_host_port host (itoa (next_int port))
  ])
]

unfoldable pub resolve_tcp_addr : List ℕ → List ℕ → List ℕ
resolve_tcp_addr [] server = elim (split_host_port server) [
  | none ↦ []
  | some (host, port) ↦ join_host_port host (codes "8443")
]
resolve_tcp_addr (c ∷ server_tcp) server = c ∷ server_tcp

abbrev pub hextable : List ℕ
hextable = codes "0123456789abcdef"

-- The loop over the digest, from its byte i on.
unfoldable pub fill_hex : ℕ → List ℕ → List ℕ → List ℕ
fill_hex i [] buf = buf
fill_hex i (b ∷ sum) buf =
    let high = set buf (i * 2) (get_or hextable (b / 16) 0) in
    fill_hex (suc i) sum (set high (i * 2 + 1) (get_or hextable (b % 16) 0))

module _ (source : KeySource) where
  unfoldable pub wire_hash_hex : List ℕ → List ℕ
  wire_hash_hex password = fill_hex 0 (source.sha256 password) (replicate 64 0)

  unfoldable pub wire_hash : List ℕ → List ℕ
  wire_hash plain = hex_encode (source.sha256 plain)
