-- ===== src/Client/Connect.antt =====
-- internal/vpnclient/client.go: connectWithFallback and connectReality's choice of settings. Whether
-- dialling and authenticating succeed is a parameter, and the context is not cancelled.
pub mod Plan
use supervpn.Base.{ℕ, zero, suc, List, [], ◌∷◌, ◌==◌, is_empty, if◌then◌else◌, length, Bool}
use supervpn.Base.Ints.{ℤ, pos, negsuc}

-- The transport setting: "", "auto" and any other text but the three is the automatic choice.
pub data Transport : Type 0 where
  auto udp tcp reality : Transport

-- One try: UDP with its number from 1 on, Reality, or TLS to an address.
pub data Attempt : Type 0 where
  try_udp : ℕ → Attempt
  try_reality : Attempt
  try_tls : List ℕ → Attempt

-- `no_tcp_addr` is the error that no TLS address is configured; `attempt_failed` that of the last try.
pub data Connection : Type 0 where
  connected : Attempt → Connection
  attempt_failed : Attempt → Connection
  udp_unreachable : ℕ → Connection
  no_tcp_addr : Connection

-- The tries made, in order, and the outcome.
abbrev pub Connecting : Type 0
Connecting = List Attempt × Connection

abbrev pub attempts_of : ℤ → ℕ
attempts_of (pos n) = n
attempts_of (negsuc n) = 0

module _ (succeeds : Attempt → Bool) where
  -- connectTLS and connectReality.
  unfoldable pub try_once : Attempt → Connecting
  try_once a = (a ∷ [], (if succeeds a then connected a else attempt_failed a))

  -- The part after the UDP loop.
  unfoldable pub fall_back : List ℕ → Connecting
  fall_back tcp_addr =
      if succeeds try_reality
      then (try_reality ∷ [], connected try_reality)
      else if is_empty tcp_addr
      then (try_reality ∷ [], no_tcp_addr)
      else (let (tries, result) = try_once (try_tls tcp_addr) in (try_reality ∷ tries, result))

  -- What follows when no UDP attempt has succeeded.
  unfoldable pub after_udp : Transport → ℕ → List ℕ → Connecting
  after_udp udp attempts tcp_addr = ([], udp_unreachable attempts)
  after_udp auto attempts tcp_addr = fall_back tcp_addr
  after_udp tcp attempts tcp_addr = fall_back tcp_addr
  after_udp reality attempts tcp_addr = fall_back tcp_addr

  -- The loop, with the attempts left, the number of the next one, and what follows the loop.
  unfoldable pub udp_loop : ℕ → ℕ → Connecting → Connecting
  udp_loop zero attempt next = next
  udp_loop (suc left) attempt next =
      let (tries, result) = udp_loop left (suc attempt) next in
      if succeeds (try_udp attempt)
      then (try_udp attempt ∷ [], connected (try_udp attempt))
      else (try_udp attempt ∷ tries, result)

  unfoldable pub connect_with_fallback : Transport → ℤ → List ℕ → Connecting
  connect_with_fallback reality attempts tcp_addr = try_once try_reality
  connect_with_fallback tcp attempts tcp_addr =
      if is_empty tcp_addr then ([], no_tcp_addr) else try_once (try_tls tcp_addr)
  connect_with_fallback udp attempts tcp_addr =
      let n = attempts_of attempts in udp_loop n 1 (after_udp udp n tcp_addr)
  connect_with_fallback auto attempts tcp_addr =
      let n = attempts_of attempts in udp_loop n 1 (after_udp auto n tcp_addr)
