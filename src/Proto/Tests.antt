-- ===== src/Proto/Tests.antt =====
-- Runs of the wire format, and its theorems at concrete inputs.
use supervpn.Base.{ℕ, ◌≡◌, ◌≢◌, refl, List, [], ◌∷◌, ◌++◌, replicate, ok, panic, arith}
use mathlib.Core.List.{map}
use supervpn.Proto.Header.{Header, frame_data, marshal}
use supervpn.Proto.Seq.{pack_data_seq}
use supervpn.Proto.Auth.Hello.{AuthHello, marshal_hello, parse_hello, parse_hello-wrapped_login}
use supervpn.Proto.Auth.Reply.{AuthOk, parse_ok, parse_ok-ne-panic}
use supervpn.Proto.HubList.{
  HubInfo, cut_name, marshal_hub_list, parse_hub_list, parse_hub_list-marshal_hub_list,
}

abbrev data_header : Header
data_header = record { frame_type = frame_data; hub_id = 0x0102; session_id = 0xdeadbeef; seq = 7 }

marshal_run :
    marshal data_header ≡ 1 ∷ 1 ∷ 2 ∷ 0xde ∷ 0xad ∷ 0xbe ∷ 0xef ∷ 0 ∷ 0 ∷ 0 ∷ 0 ∷ 0 ∷ 0 ∷ 0 ∷ 7 ∷ []
unfolding marshal
marshal_run = refl

abbrev received : List ℕ
received = 1 ∷ 1 ∷ 2 ∷ 0xde ∷ 0xad ∷ 0xbe ∷ 0xef ∷ 0 ∷ 0 ∷ 0 ∷ 0 ∷ 0 ∷ 0 ∷ 0 ∷ 7 ∷ 9 ∷ []

pack_data_run : pack_data_seq 3 5 ≡ 0x0000_0003_0005_0000
unfolding pack_data_seq
pack_data_run = refl

abbrev hash : List ℕ
hash = replicate 32 0xab

abbrev bob : AuthHello
bob = record { hub_id = 5; login = 98 ∷ 111 ∷ 98 ∷ []; pw_hash = hash; flags = 1 }

-- A login that the length byte does not hold.
abbrev long_bob : AuthHello
long_bob = record bob { login = replicate 256 98 }

-- All of its login is lost, and its password hash is "bbb..." to the server.
parse_hello-wrapped_login_example :
    parse_hello (marshal_hello long_bob)
    ≡ ok (record { hub_id = 5; login = []; pw_hash = replicate 32 98; flags = 98 })
parse_hello-wrapped_login_example = parse_hello-wrapped_login long_bob (omega arith) refl

abbrev granted : AuthOk
granted = record { session_id = 77; fec_k = 4; fec_r = 2; fec_repair_delay = 50; flags = 1 }

parse_ok-ne-panic_example : parse_ok (1 ∷ []) ≢ panic
parse_ok-ne-panic_example = parse_ok-ne-panic (1 ∷ [])

abbrev two_hubs : List HubInfo
two_hubs = record { id = 1; name = 97 ∷ [] } ∷ record { id = 258; name = [] } ∷ []

parse_hub_list-marshal_hub_list_example :
    parse_hub_list (marshal_hub_list two_hubs ++ []) ≡ ok (map cut_name two_hubs)
parse_hub_list-marshal_hub_list_example = parse_hub_list-marshal_hub_list two_hubs [] (omega arith)
