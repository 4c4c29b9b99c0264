-- ===== src/Transport/Tests.antt =====
-- Runs of the framing and of the hello parser, and their theorems at concrete inputs.
use supervpn.Base.{ℕ, ◌≡◌, refl, List, [], ◌∷◌, ◌++◌, arith, replicate, ok, some, none}
use supervpn.Transport.Tcp.{send_each, recv_each, recv_each-send_each}
use supervpn.Transport.Hello.{parse_client_hello_record}
use supervpn.Transport.Hello.Extensions.{with_extensions, sni_body, first_key}
use supervpn.Transport.Hello.Record.{
  hello_body, hello_record, parse_client_hello_record-hello_record,
}

abbrev packets : List (List ℕ)
packets = (1 ∷ 2 ∷ []) ∷ [] ∷ (3 ∷ []) ∷ []

recv_each-send_each_example :
    (bytes : List ℕ) × (send_each packets ≡ ok bytes)
    × (recv_each packets (bytes ++ (9 ∷ [])) ≡ ok (packets, 9 ∷ []))
recv_each-send_each_example =
    recv_each-send_each packets (9 ∷ []) (omega arith, (omega arith, (omega arith, tt)))

abbrev host : List ℕ
host = 97 ∷ 46 ∷ 98 ∷ []

abbrev shares : List (ℕ × List ℕ)
shares = (23, 1 ∷ []) ∷ (29, replicate 32 7) ∷ []

first_key_run : first_key shares ≡ some (replicate 32 7)
first_key_run = refl

abbrev extensions : List (ℕ × List ℕ)
extensions = (0, sni_body host) ∷ (21, 0 ∷ []) ∷ []

parse_client_hello_record-hello_record_example :
    parse_client_hello_record (
      hello_record (hello_body (replicate 32 5) (1 ∷ []) (19 ∷ 1 ∷ []) (0 ∷ []) extensions)
      ++ (8 ∷ []))
    ≡ some (
        with_extensions extensions (record {
          random = replicate 32 5;
          session_id = 1 ∷ [];
          x25519_pub = none;
          server_name = [];
        }))
parse_client_hello_record-hello_record_example =
    parse_client_hello_record-hello_record (replicate 32 5) (1 ∷ []) (19 ∷ 1 ∷ []) (0 ∷ []) (8 ∷ [])
      extensions refl (omega arith) (omega arith) (omega arith) (omega arith)
      ((omega arith, omega arith), ((omega arith, omega arith), tt)) (omega arith)
