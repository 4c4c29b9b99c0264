-- ===== src/Client/Connect/Plan.antt =====
-- internal/vpnclient/client.go: the order in which the transports are tried.
use supervpn.Base.{ℕ, zero, suc, List, [], ◌∷◌, is_empty, if◌then◌else◌, Bool, Option, none, some}
use supervpn.Base.Ints.{ℤ}
use supervpn.Client.Connect.{
  Transport, auto, udp, tcp, reality, Attempt, try_udp, try_reality, try_tls, Connection, connected,
  attempt_failed, udp_unreachable, no_tcp_addr, Connecting, attempts_of,
}

-- The UDP attempts numbered from `first` on, before the others.
abbrev pub udp_attempts : ℕ → ℕ → List Attempt → List Attempt
udp_attempts zero first others = others
udp_attempts (suc n) first others = try_udp first ∷ udp_attempts n (suc first) others

abbrev pub tls_attempt : List ℕ → List Attempt
tls_attempt tcp_addr = if is_empty tcp_addr then [] else try_tls tcp_addr ∷ []

-- The order that the settings ask for.
abbrev pub plan : Transport → ℤ → List ℕ → List Attempt
plan reality attempts tcp_addr = try_reality ∷ []
plan tcp attempts tcp_addr = tls_attempt tcp_addr
plan udp attempts tcp_addr = udp_attempts (attempts_of attempts) 1 []
plan auto attempts tcp_addr =
    udp_attempts (attempts_of attempts) 1 (try_reality ∷ tls_attempt tcp_addr)

module _ (succeeds : Attempt → Bool) where
  -- The attempts up to the first that succeeds, and that one.
  abbrev pub made : List Attempt → List Attempt
  made [] = []
  made (a ∷ others) = a ∷ (if succeeds a then [] else made others)

  abbrev pub first_success : List Attempt → Option Attempt
  first_success [] = none
  first_success (a ∷ others) = if succeeds a then some a else first_success others

-- The transport that the session gets, if any.
abbrev pub got : Connection → Option Attempt
got (connected a) = some a
got (attempt_failed a) = none
got (udp_unreachable n) = none
got no_tcp_addr = none

abbrev view : Connecting → List Attempt × Option Attempt
view (tries, result) = (tries, got result)
