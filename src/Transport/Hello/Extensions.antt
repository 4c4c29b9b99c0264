-- ===== src/Transport/Hello/Extensions.antt =====
-- internal/transport/reality_hello.go: what the parser reads from extensions.
use supervpn.Base.{
  ℕ, zero, suc, ◌+◌, ◌^◌, ◌≤◌, ◌<◌, ◌≡◌, refl, ap, List, [], ◌∷◌, ◌++◌, ltb, ◌==◌, ◌&&◌,
  if◌then◌else◌, length, arith, false, Option, none, some, put_u16, length-append, le→ltb-false,
}
use supervpn.Transport.Hello.{
  ParsedClientHello, use_extension, extensions_loop, sni_loop, parse_sni, key_share_loop,
  parse_key_share_x25519, tls_group_x25519,
}
use supervpn.Transport.Hello.Readers.{
  extension_bytes, Extensions, take_u16_front, take_u16_vec_front, take_u8_front,
}

-- What a list of extensions does to a hello.
abbrev pub with_extensions : List (ℕ × List ℕ) → ParsedClientHello → ParsedClientHello
with_extensions [] ch = ch
with_extensions ((t, body) ∷ exts) ch = with_extensions exts (use_extension t body ch)

pub extensions_loop-bytes :
    (exts : List (ℕ × List ℕ)) (fuel : ℕ) (ch : ParsedClientHello)
    → Extensions exts
    → length (extension_bytes exts) ≤ fuel
    → extensions_loop fuel (extension_bytes exts) ch ≡ with_extensions exts ch
unfolding extensions_loop
extensions_loop-bytes [] zero ch v h = refl
extensions_loop-bytes [] (suc fuel) ch v h = refl
extensions_loop-bytes ((t, body) ∷ exts) zero ch v h = absurd (omega arith)
extensions_loop-bytes ((t, body) ∷ exts) (suc fuel) ch v h =
    let more = le→ltb-false (length (extension_bytes ((t, body) ∷ exts))) 4 (omega arith) in
    rw
      (
        more,
        take_u16_front t (put_u16 (length body) ++ (body ++ extension_bytes exts)) v.0.0,
        take_u16_vec_front body (extension_bytes exts) v.0.1,
      )
      (extensions_loop-bytes exts fuel (use_extension t body ch) v.1
        (omega (arith, length-append {0} body (extension_bytes exts))))

-- The body of a server_name extension that names one host, and of a key_share extension.
abbrev pub sni_body : List ℕ → List ℕ
sni_body host =
    put_u16 (length (0 ∷ (put_u16 (length host) ++ (host ++ []))))
    ++ ((0 ∷ (put_u16 (length host) ++ (host ++ []))) ++ [])

-- The host of a server_name extension is read back.
pub parse_sni-sni_body :
    (host : List ℕ) → length host + 3 < 2 ^ 16 → parse_sni (sni_body host) ≡ host
unfolding parse_sni sni_loop
parse_sni-sni_body host h =
    let list : List ℕ = 0 ∷ (put_u16 (length host) ++ (host ++ [])) in
    let long : ltb (length list) 3 ≡ false = le→ltb-false (length list) 3 (omega arith) in
    rw (parse_sni, take_u16_vec_front list [] (omega (arith, length-append {0} host [])))
      (rw
        (
          sni_loop,
          long,
          take_u8_front 0 (put_u16 (length host) ++ (host ++ [])),
          take_u16_vec_front host [] (omega arith),
        )
        refl)

-- The first X25519 key of 32 bytes among some key shares, each a group and a key.
abbrev pub first_key : List (ℕ × List ℕ) → Option (List ℕ)
first_key [] = none
first_key ((group, key) ∷ shares) =
    if group == tls_group_x25519 && length key == 32 then some key else first_key shares

key_share_loop-bytes :
    (shares : List (ℕ × List ℕ)) (fuel : ℕ)
    → Extensions shares
    → length (extension_bytes shares) ≤ fuel
    → key_share_loop fuel (extension_bytes shares) ≡ first_key shares
unfolding key_share_loop
key_share_loop-bytes [] zero v h = refl
key_share_loop-bytes [] (suc fuel) v h = refl
key_share_loop-bytes ((t, key) ∷ shares) zero v h = absurd (omega arith)
key_share_loop-bytes ((t, key) ∷ shares) (suc fuel) v h =
    let more = le→ltb-false (length (extension_bytes ((t, key) ∷ shares))) 4 (omega arith) in
    rw
      (
        key_share_loop,
        more,
        take_u16_front t (put_u16 (length key) ++ (key ++ extension_bytes shares)) v.0.0,
        take_u16_vec_front key (extension_bytes shares) v.0.1,
      )
      (ap (λ rest. if t == tls_group_x25519 && length key == 32 then some key else rest)
        (key_share_loop-bytes shares fuel v.1
          (omega (arith, length-append {0} key (extension_bytes shares)))))

-- From a key_share extension with any shares, each a group and a key, the parser takes the first X25519
-- key of 32 bytes.
pub parse_key_share_x25519-shares :
    (shares : List (ℕ × List ℕ))
    → Extensions shares
    → length (extension_bytes shares) < 2 ^ 16
    → parse_key_share_x25519
        (put_u16 (length (extension_bytes shares)) ++ (extension_bytes shares ++ []))
      ≡ first_key shares
unfolding parse_key_share_x25519
parse_key_share_x25519-shares shares v h =
    rw (parse_key_share_x25519, take_u16_vec_front (extension_bytes shares) [] h)
      (key_share_loop-bytes shares (length (extension_bytes shares)) v (omega arith))
