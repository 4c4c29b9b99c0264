-- ===== src/Proto/Auth/Hello.antt =====
-- internal/proto/packet.go: AuthHello, the client's login message.
use supervpn.Base.{
  ℕ, ◌+◌, ◌/◌, ◌≤◌, ◌<◌, ◌^◌, ◌≡◌, ◌≢◌, refl, List, [], ◌∷◌, ◌++◌, append_assoc, arith, leb,
  if◌then◌else◌, length, get_or, byte, put_u16, big_endian, big_endian-put_u16, leb→le, Go, ok,
  panic, guard, index, slice, index_ok, slice_ok, index-append, slice-append, ◌>>=◌, ◌>>◌,
  Bool-cases, inl, inr, length-append, length-take, index-ne-panic, ap, ap₂, sym, ◌∙◌, take, drop,
  take-append-drop, get_or-drop, ◌%◌,
}

pub record AuthHello : Type 0 where
  pub hub_id : ℕ
  pub login : List ℕ
  pub pw_hash : List ℕ
  pub flags : ℕ

pub data HelloError : Type 0 where
  hello_too_short : HelloError
  hello_truncated : ℕ → HelloError

-- `buf[2] = uint8(len(loginBytes))` wraps; `PWHash` is an array of 32 bytes.
unfoldable pub marshal_hello : AuthHello → List ℕ
marshal_hello a =
    put_u16 a.hub_id ++ (byte (length a.login) ∷ (a.login ++ (a.pw_hash ++ (a.flags ∷ []))))

unfoldable pub parse_hello : List ℕ → Go HelloError AuthHello
parse_hello b = do
  guard (leb (2 + 1 + 32) (length b)) hello_too_short
  hub ← slice 0 2 b
  login_len ← index 2 b
  guard (leb (2 + 1 + login_len + 32) (length b)) (hello_truncated login_len)
  login ← slice 3 (3 + login_len) b
  pwhash ← slice (3 + login_len) (3 + login_len + 32) b
  flags ← if leb (3 + login_len + 32 + 1) (length b) then index (3 + login_len + 32) b else ok 0
  ok (record { hub_id = big_endian hub; login = login; pw_hash = pwhash; flags = flags })

-- The values of the Go type whose login fits its length byte.
pub record IsHello (a : AuthHello) : Type 0 where
  pub hub_lt : a.hub_id < 2 ^ 16
  pub login_short : length a.login < 2 ^ 8
  pub hash_length : length a.pw_hash ≡ 32

-- The layout with whatever follows the password hash: nothing from an old client, the flags from a
-- new one, more from a later one.
abbrev pub hello_bytes : ℕ → List ℕ → List ℕ → List ℕ → List ℕ
hello_bytes hub login pwhash tail =
    put_u16 hub ++ (byte (length login) ∷ (login ++ (pwhash ++ tail)))

module _ (hub : ℕ) (login pwhash tail : List ℕ) where
  abbrev body : List ℕ
  body = hello_bytes hub login pwhash tail

  abbrev front : List ℕ
  front = byte (hub / 2 ^ 8) ∷ byte hub ∷ byte (length login) ∷ []

  length-body : length body ≡ 3 + length login + length pwhash + length tail
  length-body =
      omega (arith, length-append {0} login (pwhash ++ tail), length-append {0} pwhash tail)

  slice-hub : slice {E = HelloError} 0 2 body ≡ ok (put_u16 hub)
  slice-hub = slice_ok 0 2 body (omega arith) (omega arith)

  index-length : length login < 2 ^ 8 → index {E = HelloError} 2 body ≡ ok (length login)
  unfolding index
  index-length h = ap ok (omega arith)

  slice-login : slice {E = HelloError} 3 (3 + length login) body ≡ ok login
  slice-login = slice-append front login (pwhash ++ tail) 3 (3 + length login) refl refl

  slice-hash :
      length pwhash ≡ 32
      → slice {E = HelloError} (3 + length login) (3 + length login + 32) body ≡ ok pwhash
  slice-hash h =
      slice-append (front ++ login) pwhash tail (3 + length login) (3 + length login + 32)
        (omega arith) (omega arith)

-- The flags are the first byte of the tail, and 0 where there is none.
index-flags :
    (hub : ℕ) (login pwhash tail : List ℕ)
    → length pwhash ≡ 32
    → (if leb (3 + length login + 32 + 1) (length (body hub login pwhash tail))
        then index {E = HelloError} (3 + length login + 32) (body hub login pwhash tail)
        else ok 0)
      ≡ ok (get_or tail 0 0)
index-flags hub login pwhash [] h = ground (arith, length-body hub login pwhash [])
index-flags hub login pwhash (f ∷ r) h = ground (
  arith,
  length-body hub login pwhash (f ∷ r),
  rw (append_assoc login pwhash (f ∷ r)) at (
      index-append {E = HelloError} (front hub login pwhash [] ++ (login ++ pwhash)) f r
        (3 + length login + 32) (omega (arith, length-append {0} login pwhash))),
)

-- What a server reads from a hello of any age: the fields, with the flags 0 where they are missing.
pub parse_hello-hello_bytes :
    (hub : ℕ) (login pwhash tail : List ℕ)
    → hub < 2 ^ 16
    → length login < 2 ^ 8
    → length pwhash ≡ 32
    → parse_hello (hello_bytes hub login pwhash tail)
      ≡ ok (record { hub_id = hub; login = login; pw_hash = pwhash; flags = get_or tail 0 0 })
unfolding parse_hello
parse_hello-hello_bytes hub login pwhash tail hh hl hp = ground (
  arith,
  length-body hub login pwhash tail,
  slice-hub hub login pwhash tail,
  index-length hub login pwhash tail hl,
  slice-login hub login pwhash tail,
  slice-hash hub login pwhash tail,
  index-flags hub login pwhash tail,
  big_endian-put_u16 hub hh,
)

-- The server reads back every hello that a client writes.
pub parse_hello-marshal_hello : (a : AuthHello) → IsHello a → parse_hello (marshal_hello a) ≡ ok a
unfolding marshal_hello
parse_hello-marshal_hello a v =
    parse_hello-hello_bytes a.hub_id a.login a.pw_hash (a.flags ∷ []) v.hub_lt v.login_short
      v.hash_length

-- On any input the parser stays inside the buffer.
pub parse_hello-ne-panic : (b : List ℕ) → parse_hello b ≢ panic
unfolding parse_hello
parse_hello-ne-panic b = elim (Bool-cases (leb 35 (length b))) [
  | inr short ↦ rw (short, parse_hello) (λ e. cc)
  | inl long ↦
      let (n, e) = index_ok {E = HelloError} 2 b (omega (arith, leb→le 35 (length b) long)) in
      ground (
        arith,
        e,
        slice_ok {E = HelloError} 0 2 b,
        slice_ok {E = HelloError} 3 (3 + n) b,
        slice_ok {E = HelloError} (3 + n) (3 + n + 32) b,
        index-ne-panic {E = HelloError} (3 + n + 32) b,
      )
]

-- The server cuts what a client writes after the login length modulo 256, whatever the login is: a login
-- of 256 bytes or more is read as its first `length % 256` bytes, and the next 32 bytes of the message,
-- which start inside the login, as the password hash.
pub parse_hello-wrapped_login :
    (a : AuthHello)
    → a.hub_id < 2 ^ 16
    → length a.pw_hash ≡ 32
    → let cut = length a.login % 2 ^ 8 in
      let rest = drop cut a.login ++ (a.pw_hash ++ (a.flags ∷ [])) in
      parse_hello (marshal_hello a)
      ≡ ok (record {
        hub_id = a.hub_id;
        login = take cut a.login;
        pw_hash = take 32 rest;
        flags = get_or rest 32 0;
      })
unfolding marshal_hello
parse_hello-wrapped_login a small hash =
    let cut = length a.login % 2 ^ 8 in
    let rest : List ℕ = drop cut a.login ++ (a.pw_hash ++ (a.flags ∷ [])) in
    let read : ℕ = length (take cut a.login) in
    let fits : read ≡ cut = omega (arith, length-take {0} cut a.login) in
    let long : 32 ≤ length rest = omega (
      arith,
      length-append {0} (drop cut a.login) (a.pw_hash ++ (a.flags ∷ [])),
      length-append {0} a.pw_hash (a.flags ∷ []),
      hash,
    ) in
    let same_tail : take cut a.login ++ (take 32 rest ++ drop 32 rest)
        ≡ a.login ++ (a.pw_hash ++ (a.flags ∷ [])) =
      ap (λ t. take cut a.login ++ t) (take-append-drop 32 rest)
      ∙ sym (append_assoc (take cut a.login) (drop cut a.login) (a.pw_hash ++ (a.flags ∷ [])))
      ∙ ap (λ l. l ++ (a.pw_hash ++ (a.flags ∷ []))) (take-append-drop cut a.login) in
    let same_byte : byte read ≡ byte (length a.login) = omega (arith, fits) in
    ap parse_hello (ap₂ (λ n t. put_u16 a.hub_id ++ (n ∷ t)) (sym same_byte) (sym same_tail))
    ∙ parse_hello-hello_bytes a.hub_id (take cut a.login) (take 32 rest) (drop 32 rest) small
        (omega (arith, fits)) (omega (arith, length-take {0} 32 rest))
    ∙ ap
        (λ f. ok (record {
          hub_id = a.hub_id;
          login = take cut a.login;
          pw_hash = take 32 rest;
          flags = f;
        }))
        (get_or-drop 32 rest 0 0)
