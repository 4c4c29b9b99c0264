-- ===== src/Transport/Hello.antt =====
-- internal/transport/reality_hello.go: the ClientHello parser. A byteReader is the list of the bytes that
-- it did not read yet, and `none` is `ok == false`. Each loop takes as fuel the number of bytes left, of
-- which every round reads three at least.
pub mod Readers
pub mod Extensions
pub mod Record
use supervpn.Base.{
  ℕ, zero, suc, ◌+◌, ◌-◌, ◌*◌, ◌%◌, ◌^◌, ◌≤◌, ◌<◌, ◌≡◌, ◌≢◌, refl, List, [], ◌∷◌, ◌++◌, ltb, leb,
  ◌==◌, ◌||◌, ◌&&◌, not, if◌then◌else◌, length, arith, true, false, Bool, Option, none, some, take,
  drop, get_or, big_endian,
}

abbrev pub tls_group_x25519 : ℕ
tls_group_x25519 = 0x001d

-- `x25519_pub` is nil for `none`.
pub record ParsedClientHello : Type 0 where
  pub random : List ℕ
  pub session_id : List ℕ
  pub x25519_pub : Option (List ℕ)
  pub server_name : List ℕ

abbrev pub ByteReader : Type 0
ByteReader = List ℕ

unfoldable pub take_bytes : ℕ → ByteReader → Option (List ℕ × ByteReader)
take_bytes n r = if ltb (length r) n then none else some (take n r, drop n r)

infixl 1 ◌>>=◌
-- `if !ok { return ch, false }`
abbrev pub ◌>>=◌ {ℓ κ} : {A : Type ℓ} {B : Type κ} → Option A → (A → Option B) → Option B
none >>= f = none
some a >>= f = f a

unfoldable pub take_u8 : ByteReader → Option (ℕ × ByteReader)
take_u8 r = do (v, rest) ← take_bytes 1 r; some (get_or v 0 0, rest)

unfoldable pub take_u16 : ByteReader → Option (ℕ × ByteReader)
take_u16 r = do (v, rest) ← take_bytes 2 r; some (big_endian v, rest)

unfoldable pub take_u8_vec : ByteReader → Option (List ℕ × ByteReader)
take_u8_vec r = do (n, rest) ← take_u8 r; take_bytes n rest

unfoldable pub take_u16_vec : ByteReader → Option (List ℕ × ByteReader)
take_u16_vec r = do (n, rest) ← take_u16 r; take_bytes n rest

-- The loop of parseSNI.
unfoldable pub sni_loop : ℕ → ByteReader → List ℕ
sni_loop zero lr = []
sni_loop (suc fuel) lr = if ltb (length lr) 3 then [] else (elim (take_u8 lr) [
  | none ↦ []
  | some (name_type, r) ↦ (elim (take_u16_vec r) [
    | none ↦ []
    | some (name, rest) ↦ let more = sni_loop fuel rest in if name_type == 0 then name else more
  ])
])

unfoldable pub parse_sni : List ℕ → List ℕ
parse_sni data' = elim (take_u16_vec data') [
  | none ↦ []
  | some (list, r) ↦ sni_loop (length list) list
]

-- The loop of parseKeyShareX25519.
unfoldable pub key_share_loop : ℕ → ByteReader → Option (List ℕ)
key_share_loop zero sr = none
key_share_loop (suc fuel) sr = if ltb (length sr) 4 then none else (elim (take_u16 sr) [
  | none ↦ none
  | some (group, r) ↦ (elim (take_u16_vec r) [
    | none ↦ none
    | some (key, rest) ↦
        let more = key_share_loop fuel rest in
        if group == tls_group_x25519 && length key == 32 then some key else more
  ])
])

unfoldable pub parse_key_share_x25519 : List ℕ → Option (List ℕ)
parse_key_share_x25519 data' = elim (take_u16_vec data') [
  | none ↦ none
  | some (shares, r) ↦ key_share_loop (length shares) shares
]

-- One extension.
unfoldable pub use_extension : ℕ → List ℕ → ParsedClientHello → ParsedClientHello
use_extension ext_type body ch =
    if ext_type == 0x0000
    then record ch { server_name = parse_sni body }
    else if ext_type == 0x0033
    then record ch { x25519_pub = parse_key_share_x25519 body }
    else ch

-- The loop of parseExtensions.
unfoldable pub extensions_loop : ℕ → ByteReader → ParsedClientHello → ParsedClientHello
extensions_loop zero er ch = ch
extensions_loop (suc fuel) er ch = if ltb (length er) 4 then ch else (elim (take_u16 er) [
  | none ↦ ch
  | some (ext_type, r) ↦ (elim (take_u16_vec r) [
    | none ↦ ch
    | some (body, rest) ↦ extensions_loop fuel rest (use_extension ext_type body ch)
  ])
])

unfoldable pub parse_extensions : List ℕ → ParsedClientHello → ParsedClientHello
parse_extensions ext ch = extensions_loop (length ext) ext ch

-- The handshake message, after its header.
unfoldable pub parse_hello_body : List ℕ → Option ParsedClientHello
parse_hello_body hs = do
  (_, r1) ← take_bytes 2 hs
  (random, r2) ← take_bytes 32 r1
  (sid, r3) ← take_u8_vec r2
  (_, r4) ← take_u16_vec r3
  (_, r5) ← take_u8_vec r4
  (ext, _) ← take_u16_vec r5
  some (
      parse_extensions ext
        (record { random = random; session_id = sid; x25519_pub = none; server_name = [] }))

-- The record's body, up to its length.
unfoldable pub parse_handshake : List ℕ → Option ParsedClientHello
parse_handshake body =
    if ltb (length body) 4 || not (get_or body 0 0 == 0x01)
    then none
    else (let hs_len = big_endian (take 3 (drop 1 body)) in
        let hs = drop 4 body in
        if ltb (length hs) hs_len then none else parse_hello_body (take hs_len hs))

unfoldable pub parse_client_hello_record : List ℕ → Option ParsedClientHello
parse_client_hello_record rec =
    if ltb (length rec) 5 || not (get_or rec 0 0 == 0x16)
    then none
    else (let rec_len = big_endian (take 2 (drop 3 rec)) in
        let body = drop 5 rec in
        if ltb (length body) rec_len then none else parse_handshake (take rec_len body))
