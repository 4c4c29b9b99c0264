-- ===== src/Transport/Hello/Readers.antt =====
-- internal/transport/reality_hello.go: the readers, at bytes that were written.
use supervpn.Base.{
  ℕ, ◌^◌, ◌<◌, ◌≡◌, refl, ap, ◌∙◌, List, [], ◌∷◌, ◌++◌, length, arith, some, get_or, big_endian,
  byte, put_u16, big_endian-put_u16, length-append, All, take-append_length, drop-append_length,
  le→ltb-false,
}
use supervpn.Transport.Hello.{◌>>=◌, take_bytes, take_u8, take_u16, take_u8_vec, take_u16_vec}

-- Extensions, each as its type and its body.
abbrev pub extension_bytes : List (ℕ × List ℕ) → List ℕ
extension_bytes [] = []
extension_bytes ((t, body) ∷ exts) =
    put_u16 t ++ (put_u16 (length body) ++ (body ++ extension_bytes exts))

abbrev pub Extensions : List (ℕ × List ℕ) → Type 0
Extensions exts = All (λ e. (e.0 < 2 ^ 16) × (length e.1 < 2 ^ 16)) exts

pub take_bytes_front :
    (n : ℕ) (x rest : List ℕ) → n ≡ length x → take_bytes n (x ++ rest) ≡ some (x, rest)
unfolding take_bytes
take_bytes_front n x rest e =
    let enough = le→ltb-false (length (x ++ rest)) n (omega (arith, length-append {0} x rest)) in
    rw (enough, take-append_length x rest n e, drop-append_length x rest n e) refl

pub take_u16_front :
    (v : ℕ) (rest : List ℕ) → v < 2 ^ 16 → take_u16 (put_u16 v ++ rest) ≡ some (v, rest)
unfolding take_u16
take_u16_front v rest h =
    ap (λ o. o >>= λ p. some (big_endian p.0, p.1)) (take_bytes_front 2 (put_u16 v) rest refl)
    ∙ ap (λ n. some (n, rest)) (big_endian-put_u16 v h)

pub take_u16_vec_front :
    (v rest : List ℕ)
    → length v < 2 ^ 16
    → take_u16_vec (put_u16 (length v) ++ (v ++ rest)) ≡ some (v, rest)
unfolding take_u16_vec
take_u16_vec_front v rest h =
    ap (λ o. o >>= λ p. take_bytes p.0 p.1) (take_u16_front (length v) (v ++ rest) h)
    ∙ take_bytes_front (length v) v rest refl

pub take_u8_front : (b : ℕ) (rest : List ℕ) → take_u8 (b ∷ rest) ≡ some (b, rest)
unfolding take_u8
take_u8_front b rest =
    ap (λ o. o >>= λ p. some (get_or p.0 0 0, p.1)) (take_bytes_front 1 (b ∷ []) rest refl)

pub take_u8_vec_front :
    (v rest : List ℕ)
    → length v < 256
    → take_u8_vec (byte (length v) ∷ (v ++ rest)) ≡ some (v, rest)
unfolding take_u8_vec take_u8
take_u8_vec_front v rest h =
    ap (λ o. o >>= λ p. take_bytes p.0 p.1) (take_u8_front (byte (length v)) (v ++ rest))
    ∙ take_bytes_front (byte (length v)) v rest (omega arith)
