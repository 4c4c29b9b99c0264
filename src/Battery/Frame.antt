-- ===== src/Battery/Frame.antt =====
-- internal/bmwbattery/battery.go: writeFrame, readFrame and readDID. The connection is the bytes that have
-- arrived and were not read; a read that finds too few ends in an error, and so does every later read,
-- since the deadline is one for the whole connection.
use supervpn.Base.{
  ℕ, zero, suc, ◌%◌, ◌^◌, ◌<◌, ◌≡◌, refl, ap, ◌∙◌, List, [], ◌∷◌, ◌++◌, ltb, ◌==◌, not,
  if◌then◌else◌, length, arith, false, take, drop, get_or, Option, none, some, big_endian, put_u16,
  put_u32, big_endian-put_u32, length-append, take-append_length, drop-append_length, le→ltb-false,
}

unfoldable pub write_frame : List ℕ → List ℕ
write_frame payload = put_u32 (length payload % 2 ^ 32) ++ (put_u16 1 ++ payload)

-- The type, the payload and the bytes behind; `none` is an error.
unfoldable pub read_frame : List ℕ → Option (ℕ × List ℕ × List ℕ)
read_frame conn =
    let size = big_endian (take 4 conn) in
    let body = drop 6 conn in
    if ltb (length conn) 6
    then none
    else if ltb (length body) size
    then none
    else some (big_endian (take 2 (drop 4 conn)), take size body, drop size body)

-- A frame with a payload of less than 4 GiB is read back whole, as a data frame, and the bytes behind it
-- are left.
pub read_frame-write_frame :
    (payload rest : List ℕ)
    → length payload < 2 ^ 32
    → read_frame (write_frame payload ++ rest) ≡ some (1, payload, rest)
unfolding read_frame write_frame
read_frame-write_frame payload rest h =
    let size : big_endian (put_u32 (length payload % 2 ^ 32)) ≡ length payload =
      big_endian-put_u32 (length payload % 2 ^ 32) (omega arith) ∙ omega (arith, h) in
    let enough =
      le→ltb-false (length (payload ++ rest)) (length payload)
        (omega (arith, length-append {0} payload rest)) in
    let long : ltb (length (write_frame payload ++ rest)) 6 ≡ false =
      le→ltb-false (length (write_frame payload ++ rest)) 6 (omega arith) in
    rw
      (
        long,
        size,
        enough,
        take-append_length payload rest (length payload) refl,
        drop-append_length payload rest (length payload) refl,
      )
      refl

-- What is left of the connection, or that it is dead.
abbrev pub Conn : Type 0
Conn = Option (List ℕ)

-- UDS: the data after the echo of 0x62; `none` is an error.
unfoldable pub did_data : List ℕ → Option (List ℕ)
did_data payload =
    if ltb (length payload) 6
    then none
    else if get_or payload 2 0 == 0x7F
    then none
    else if not (get_or payload 2 0 == 0x62)
    then none
    else some (drop 5 payload)

-- The attempts left, and the bytes on the connection.
unfoldable pub wait_data : ℕ → List ℕ → Option (List ℕ) × Conn
wait_data zero conn = (none, some conn)
wait_data (suc attempts) conn = elim (read_frame conn) [
  | none ↦ (none, none)
  | some (kind, payload, rest) ↦
      let more = wait_data attempts rest in
      if kind == 1 then (did_data payload, some rest) else more
]

abbrev pub request : ℕ → ℕ → List ℕ
request hi lo = write_frame (0xF4 ∷ 0x12 ∷ 0x22 ∷ hi ∷ lo ∷ [])

-- The peer gives the bytes that arrive after it has read a request.
unfoldable pub read_did : (List ℕ → List ℕ) → ℕ → ℕ → Conn → Option (List ℕ) × Conn
read_did peer hi lo none = (none, none)
read_did peer hi lo (some pending) = wait_data 3 (pending ++ peer (request hi lo))

abbrev pub acks : ℕ → List ℕ → List ℕ
acks zero bytes = bytes
acks (suc n) bytes = put_u32 0 ++ (put_u16 2 ++ acks n bytes)

ack_read : (bytes : List ℕ) → read_frame (put_u32 0 ++ (put_u16 2 ++ bytes)) ≡ some (2, [], bytes)
unfolding read_frame
ack_read bytes =
    let long : ltb (length (put_u32 0 ++ (put_u16 2 ++ bytes))) 6 ≡ false =
      le→ltb-false (length (put_u32 0 ++ (put_u16 2 ++ bytes))) 6 (omega arith) in
    let none_needed : ltb (length bytes) 0 ≡ false = le→ltb-false (length bytes) 0 (omega arith) in
    rw (long, none_needed) refl

-- The response to a request: the two addresses, 0x62, the id and the data.
abbrev pub response : ℕ → ℕ → List ℕ → List ℕ
response hi lo data_bytes = 0x12 ∷ 0xF4 ∷ 0x62 ∷ hi ∷ lo ∷ data_bytes

did_response : (hi lo b : ℕ) (d : List ℕ) → did_data (response hi lo (b ∷ d)) ≡ some (b ∷ d)
unfolding did_data
did_response hi lo b d =
    let long : ltb (length (response hi lo (b ∷ d))) 6 ≡ false =
      le→ltb-false (length (response hi lo (b ∷ d))) 6 (omega arith) in
    rw (did_data, long) refl

data_read :
    (attempts hi lo b : ℕ) (d rest : List ℕ)
    → length d < 2 ^ 31
    → wait_data (suc attempts) (write_frame (response hi lo (b ∷ d)) ++ rest)
      ≡ (some (b ∷ d), some rest)
unfolding wait_data did_data
data_read attempts hi lo b d rest h =
    rw (wait_data, read_frame-write_frame (response hi lo (b ∷ d)) rest (omega (arith, h)))
      (ap (λ o. (o, some rest)) (did_response hi lo b d))

abbrev rounds : ℕ → ℕ → ℕ
rounds zero attempts = attempts
rounds (suc n) attempts = suc (rounds n attempts)

acks_skipped :
    (n attempts : ℕ) (bytes : List ℕ)
    → wait_data (rounds n attempts) (acks n bytes) ≡ wait_data attempts bytes
unfolding wait_data
acks_skipped zero attempts bytes = refl
acks_skipped (suc n) attempts bytes =
    rw (wait_data, ack_read (acks n bytes)) (acks_skipped n attempts bytes)

-- What is read where n acknowledgements stand before the response.
abbrev pub read_after : ℕ → List ℕ → Option (List ℕ)
read_after n d = if ltb n 3 then some d else none

-- Where the peer answers a request with n acknowledgements and a response with data, readDID gives the data
-- if n is below 3, and an error otherwise; the connection stays alive.
pub read_did-acks :
    (peer : List ℕ → List ℕ) (hi lo n b : ℕ) (d rest : List ℕ)
    → length d < 2 ^ 31
    → peer (request hi lo) ≡ acks n (write_frame (response hi lo (b ∷ d)) ++ rest)
    → (left : List ℕ) × (read_did peer hi lo (some []) ≡ (read_after n (b ∷ d), some left))
unfolding read_did wait_data
read_did-acks peer hi lo zero b d rest h e =
    (rest, ap (wait_data 3) e ∙ data_read 2 hi lo b d rest h)
read_did-acks peer hi lo (suc zero) b d rest h e =
    (rest, ap (wait_data 3) e ∙ acks_skipped 1 2 _ ∙ data_read 1 hi lo b d rest h)
read_did-acks peer hi lo (suc (suc zero)) b d rest h e =
    (rest, ap (wait_data 3) e ∙ acks_skipped 2 1 _ ∙ data_read 0 hi lo b d rest h)
read_did-acks peer hi lo (suc (suc (suc n))) b d rest h e =
    let left = acks n (write_frame (response hi lo (b ∷ d)) ++ rest) in
    let late : ltb (suc (suc (suc n))) 3 ≡ false =
      le→ltb-false (suc (suc (suc n))) 3 (omega arith) in
    (left, ap (wait_data 3) e ∙ acks_skipped 3 0 left ∙ rw late refl)
