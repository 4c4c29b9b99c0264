-- ===== src/Transport/Hello/Record.antt =====
-- internal/transport/reality_hello.go: what the parser reads from the ClientHello that RFC 8446 describes.
use supervpn.Base.{
  ℕ, ◌+◌, ◌/◌, ◌^◌, ◌≤◌, ◌<◌, ◌≡◌, refl, ap, ap₂, ◌∙◌, sym, List, [], ◌∷◌, ◌++◌, ltb, ◌==◌, ◌||◌,
  not, length, arith, false, none, some, take, drop, get_or, big_endian, byte, put_u16,
  big_endian-put_u16, length-append, take-append_length, take_all,
}
use supervpn.Transport.Hello.{
  parse_extensions, parse_hello_body, parse_handshake, parse_client_hello_record,
}
use supervpn.Transport.Hello.Readers.{
  extension_bytes, Extensions, take_bytes_front, take_u16_vec_front, take_u8_vec_front,
}
use supervpn.Transport.Hello.Extensions.{with_extensions, extensions_loop-bytes}

-- A number of three bytes.
abbrev put_u24 : ℕ → List ℕ
put_u24 v = byte (v / 2 ^ 16) ∷ byte (v / 2 ^ 8) ∷ byte v ∷ []

-- The handshake message and the record of a hello.
abbrev pub hello_body : List ℕ → List ℕ → List ℕ → List ℕ → List (ℕ × List ℕ) → List ℕ
hello_body random sid suites comps exts =
    (3 ∷ 3 ∷ [])
    ++ (random
        ++ (byte (length sid)
            ∷ (sid
                ++ (put_u16 (length suites)
                    ++ (suites
                        ++ (byte (length comps)
                            ∷ (comps
                                ++ (put_u16 (length (extension_bytes exts))
                                    ++ (extension_bytes exts ++ [])))))))))

abbrev pub hello_record : List ℕ → List ℕ
hello_record body =
    0x16 ∷ 3 ∷ 1 ∷ (put_u16 (4 + length body) ++ (1 ∷ (put_u24 (length body) ++ body)))

handshake_opened :
    (h body : List ℕ)
    → 4 ≤ length h
    → get_or h 0 0 ≡ 1
    → big_endian (take 3 (drop 1 h)) ≡ length body
    → drop 4 h ≡ body
    → parse_handshake h ≡ parse_hello_body body
unfolding parse_handshake parse_hello_body
handshake_opened h body long kind len left =
    let enough : (ltb (length h) 4 || not (get_or h 0 0 == 0x01)) ≡ false =
      ground (arith, long, kind) in
    let whole : ltb (length (drop 4 h)) (big_endian (take 3 (drop 1 h))) ≡ false =
      ground (arith, len, ap length left) in
    rw (parse_handshake, enough, whole)
      (ap parse_hello_body (ap₂ take len left ∙ take_all (length body) body (omega arith)))

message_opened :
    (r message rest : List ℕ)
    → 5 ≤ length r
    → get_or r 0 0 ≡ 0x16
    → big_endian (take 2 (drop 3 r)) ≡ length message
    → drop 5 r ≡ message ++ rest
    → parse_client_hello_record r ≡ parse_handshake message
unfolding parse_client_hello_record parse_handshake
message_opened r message rest long kind len left =
    let enough : (ltb (length r) 5 || not (get_or r 0 0 == 0x16)) ≡ false =
      ground (arith, long, kind) in
    let whole : ltb (length (drop 5 r)) (big_endian (take 2 (drop 3 r))) ≡ false =
      ground (arith, len, ap length left, length-append {0} message rest) in
    rw (parse_client_hello_record, enough, whole)
      (ap parse_handshake
        (ap₂ take len left ∙ take-append_length message rest (length message) refl))

record_opened :
    (body rest : List ℕ)
    → length body + 4 < 2 ^ 16
    → parse_client_hello_record (hello_record body ++ rest) ≡ parse_hello_body body
record_opened body rest h =
    let message : List ℕ = 1 ∷ (put_u24 (length body) ++ body) in
    message_opened (hello_record body ++ rest) message rest (omega arith) refl
      (big_endian-put_u16 (4 + length body) (omega arith) ∙ omega arith) refl
    ∙ handshake_opened message body (omega arith) refl (omega arith) refl

parse_hello_body-bytes :
    (random sid suites comps : List ℕ) (exts : List (ℕ × List ℕ))
    → length random ≡ 32
    → length sid < 256
    → length suites < 2 ^ 16
    → length comps < 256
    → length (extension_bytes exts) < 2 ^ 16
    → Extensions exts
    → parse_hello_body (hello_body random sid suites comps exts)
      ≡ some (
          with_extensions exts
            (record { random = random; session_id = sid; x25519_pub = none; server_name = [] }))
unfolding parse_hello_body parse_extensions
parse_hello_body-bytes random sid suites comps exts r s c m e v =
    let exts_vec = put_u16 (length (extension_bytes exts)) ++ (extension_bytes exts ++ []) in
    let comps_vec = byte (length comps) ∷ (comps ++ exts_vec) in
    let suites_vec = put_u16 (length suites) ++ (suites ++ comps_vec) in
    let sid_vec = byte (length sid) ∷ (sid ++ suites_vec) in
    rw
      (
        parse_hello_body,
        take_bytes_front 2 (3 ∷ 3 ∷ []) (random ++ sid_vec) refl,
        take_bytes_front 32 random sid_vec (sym r),
        take_u8_vec_front sid suites_vec s,
        take_u16_vec_front suites comps_vec c,
        take_u8_vec_front comps exts_vec m,
        take_u16_vec_front (extension_bytes exts) [] e,
      )
      (ap some (extensions_loop-bytes exts (length (extension_bytes exts)) _ v (omega arith)))

-- A record with a ClientHello is read back: the random, the session id, and what the extensions say, in
-- their order, for any cipher suites, compression methods and extensions whose lengths fit, and with any
-- bytes after the record.
pub parse_client_hello_record-hello_record :
    (random sid suites comps rest : List ℕ) (exts : List (ℕ × List ℕ))
    → length random ≡ 32
    → length sid < 256
    → length suites < 2 ^ 16
    → length comps < 256
    → length (extension_bytes exts) < 2 ^ 16
    → Extensions exts
    → length (hello_body random sid suites comps exts) + 4 < 2 ^ 16
    → parse_client_hello_record (hello_record (hello_body random sid suites comps exts) ++ rest)
      ≡ some (
          with_extensions exts
            (record { random = random; session_id = sid; x25519_pub = none; server_name = [] }))
parse_client_hello_record-hello_record random sid suites comps rest exts r s c m e v fits =
    record_opened (hello_body random sid suites comps exts) rest fits
    ∙ parse_hello_body-bytes random sid suites comps exts r s c m e v
