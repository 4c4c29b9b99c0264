-- ===== src/Transport/Tcp.antt =====
-- internal/transport/tcp.go: packets on a stream, each behind its length. The connection is the list of
-- the bytes that were written and not read yet; a read that needs more bytes fails.
use supervpn.Base.{
  ℕ, ◌%◌, ◌^◌, ◌≤◌, ◌≡◌, refl, ap, ◌∙◌, List, [], ◌∷◌, ◌++◌, ltb, ◌==◌, if◌then◌else◌, length,
  arith, true, false, take, drop, big_endian, put_u16, big_endian-put_u16, length-append, All,
  take-append_length, drop-append_length, le→ltb-false, append_assoc, Go, ok, err, ◌>>=◌, ◌>>◌,
  guard, not,
}

abbrev pub tcp_max_frame : ℕ
tcp_max_frame = 65_535

pub data TcpError : Type 0 where
  frame_too_large read_header read_body : TcpError

-- The bytes of the one Write call.
unfoldable pub send : List ℕ → Go TcpError (List ℕ)
send data' = do
  guard (not (ltb tcp_max_frame (length data'))) frame_too_large
  ok (put_u16 (length data' % 2 ^ 16) ++ data')

-- `io.ReadFull` of n bytes.
unfoldable pub read_full : ℕ → TcpError → List ℕ → Go TcpError (List ℕ × List ℕ)
read_full n e conn = if ltb (length conn) n then err e else ok (take n conn, drop n conn)

unfoldable pub recv : List ℕ → Go TcpError (List ℕ × List ℕ)
recv conn = do
  (hdr, rest) ← read_full 2 read_header conn
  let len = big_endian hdr
  if len == 0 then ok ([], rest) else read_full len read_body rest

read_full_front :
    (n : ℕ) (e : TcpError) (x rest : List ℕ)
    → n ≡ length x
    → read_full n e (x ++ rest) ≡ ok (x, rest)
unfolding read_full
read_full_front n e x rest h =
    let enough = le→ltb-false (length (x ++ rest)) n (omega (arith, length-append {0} x rest)) in
    rw (read_full, enough, take-append_length x rest n h, drop-append_length x rest n h) refl

body_read :
    (data' rest : List ℕ) (n : ℕ)
    → n ≡ length data'
    → (if n == 0 then ok ([], data' ++ rest) else read_full n read_body (data' ++ rest))
      ≡ ok (data', rest)
body_read [] rest n h = let z : (n == 0) ≡ true = ground (arith, h) in rw z refl
body_read (b ∷ data') rest n h =
    let z : (n == 0) ≡ false = ground (arith, h) in
    rw z (read_full_front n read_body (b ∷ data') rest h)

-- Packets of up to 65535 bytes that are sent in order are received in order.
abbrev pub Sendable : List (List ℕ) → Type 0
Sendable ps = All (λ p. length p ≤ 65_535) ps

unfoldable pub send_each : List (List ℕ) → Go TcpError (List ℕ)
send_each [] = ok []
send_each (p ∷ ps) = do bytes ← send p; more ← send_each ps; ok (bytes ++ more)

-- As many calls of Recv as the list is long.
unfoldable pub recv_each : List (List ℕ) → List ℕ → Go TcpError (List (List ℕ) × List ℕ)
recv_each [] conn = ok ([], conn)
recv_each (_ ∷ ps) conn = do
  (p, rest) ← recv conn
  (more, left) ← recv_each ps rest
  ok (p ∷ more, left)

abbrev framed : List ℕ → List ℕ
framed p = put_u16 (length p % 2 ^ 16) ++ p

abbrev framed_all : List (List ℕ) → List ℕ
framed_all [] = []
framed_all (p ∷ ps) = framed p ++ framed_all ps

send-framed : (p : List ℕ) → length p ≤ 65_535 → send p ≡ ok (framed p)
unfolding send
send-framed p h = let small = le→ltb-false 65_535 (length p) h in rw (send, small) refl

send_each-framed : (ps : List (List ℕ)) → Sendable ps → send_each ps ≡ ok (framed_all ps)
unfolding send_each
send_each-framed [] v = refl
send_each-framed (p ∷ ps) v = rw (send_each, send-framed p v.0, send_each-framed ps v.1) refl

recv-framed : (p rest : List ℕ) → length p ≤ 65_535 → recv (framed p ++ rest) ≡ ok (p, rest)
unfolding recv
recv-framed p rest h =
    rw (recv, read_full_front 2 read_header (put_u16 (length p % 2 ^ 16)) (p ++ rest) refl)
      (body_read p rest _ (big_endian-put_u16 (length p % 2 ^ 16) (omega arith) ∙ omega arith))

recv_each-framed :
    (ps : List (List ℕ)) (rest : List ℕ)
    → Sendable ps
    → recv_each ps (framed_all ps ++ rest) ≡ ok (ps, rest)
unfolding recv_each
recv_each-framed [] rest v = refl
recv_each-framed (p ∷ ps) rest v =
    ap (recv_each (p ∷ ps)) (append_assoc (framed p) (framed_all ps) rest)
    ∙ ap (λ o. o >>= λ x. recv_each ps x.1 >>= λ y. ok (x.0 ∷ y.0, y.1))
        (recv-framed p (framed_all ps ++ rest) v.0)
    ∙ ap (λ o. o >>= λ y. ok (p ∷ y.0, y.1)) (recv_each-framed ps rest v.1)

-- Packets of up to 65535 bytes each are sent, and as many calls of Recv give them back in order and leave
-- the bytes that follow.
pub recv_each-send_each :
    (ps : List (List ℕ)) (rest : List ℕ)
    → Sendable ps
    → (bytes : List ℕ) × (send_each ps ≡ ok bytes) × (recv_each ps (bytes ++ rest) ≡ ok (ps, rest))
recv_each-send_each ps rest v = (framed_all ps, send_each-framed ps v, recv_each-framed ps rest v)
