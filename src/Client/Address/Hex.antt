-- ===== src/Client/Address/Hex.antt =====
-- internal/vpnclient/client.go and internal/auth/auth.go: the two ways to write a password's digest.
use supervpn.Base.{
  ℕ, zero, suc, ◌+◌, ◌*◌, ◌/◌, ◌%◌, ◌<◌, ◌≡◌, refl, List, [], ◌∷◌, ◌++◌, length, set, get_or,
  replicate, arith, All, IsByte, ◌∙◌, ap, sym, length-append, append_assoc,
}
use supervpn.Base.Text.{hex_digit, hex_encode}
use supervpn.Crypto.Keys.{KeySource}
use supervpn.Client.Address.{hextable, fill_hex, wire_hash_hex, wire_hash}

hextable-digit : (n : ℕ) → n < 16 → get_or hextable n 0 ≡ hex_digit n
unfolding hex_digit
hextable-digit zero h = refl
hextable-digit (suc zero) h = refl
hextable-digit (suc (suc zero)) h = refl
hextable-digit (suc (suc (suc zero))) h = refl
hextable-digit (suc (suc (suc (suc zero)))) h = refl
hextable-digit (suc (suc (suc (suc (suc zero))))) h = refl
hextable-digit (suc (suc (suc (suc (suc (suc zero)))))) h = refl
hextable-digit (suc (suc (suc (suc (suc (suc (suc zero))))))) h = refl
hextable-digit (suc (suc (suc (suc (suc (suc (suc (suc zero)))))))) h = refl
hextable-digit (suc (suc (suc (suc (suc (suc (suc (suc (suc zero))))))))) h = refl
hextable-digit (suc (suc (suc (suc (suc (suc (suc (suc (suc (suc zero)))))))))) h = refl
hextable-digit (suc (suc (suc (suc (suc (suc (suc (suc (suc (suc (suc zero))))))))))) h = refl
hextable-digit (suc (suc (suc (suc (suc (suc (suc (suc (suc (suc (suc (suc zero)))))))))))) h = refl
hextable-digit (suc (suc (suc (suc (suc (suc (suc (suc (suc (suc (suc (suc (suc zero)))))))))))))
      h =
    refl
hextable-digit
      (suc (suc (suc (suc (suc (suc (suc (suc (suc (suc (suc (suc (suc (suc zero)))))))))))))) h =
    refl
hextable-digit
      (suc (suc (suc (suc (suc (suc (suc (suc (suc (suc (suc (suc (suc (suc (suc zero)))))))))))))))
      h =
    refl
hextable-digit
      (suc
        (suc (suc (suc (suc (suc (suc (suc (suc (suc (suc (suc (suc (suc (suc (suc n))))))))))))))))
      h =
    absurd (omega arith)

set-append :
    (front back : List ℕ) (b v i : ℕ)
    → i ≡ length front
    → set (front ++ (b ∷ back)) i v ≡ front ++ (v ∷ back)
set-append [] back b v zero e = refl
set-append [] back b v (suc i) e = absurd (omega arith)
set-append (x ∷ front) back b v zero e = absurd (omega arith)
set-append (x ∷ front) back b v (suc i) e = ap (◌∷◌ x) (set-append front back b v i (omega arith))

write_two :
    (front back : List ℕ) (x y h l i : ℕ)
    → length front ≡ i * 2
    → set (set (front ++ (x ∷ y ∷ back)) (i * 2) h) (i * 2 + 1) l ≡ (front ++ (h ∷ l ∷ [])) ++ back
write_two front back x y h l i e =
    ap (λ b. set b (i * 2 + 1) l)
      (set-append front (y ∷ back) x h (i * 2) (sym e)
        ∙ sym (append_assoc front (h ∷ []) (y ∷ back)))
    ∙ set-append (front ++ (h ∷ [])) back y l (i * 2 + 1)
        (omega (arith, length-append {0} front (h ∷ [])))
    ∙ append_assoc front (h ∷ []) (l ∷ back)
    ∙ sym (append_assoc front (h ∷ l ∷ []) back)

high-digit : (b : ℕ) → b < 256 → get_or hextable (b / 16) 0 ≡ hex_digit (b / 16 % 16)
high-digit b h = hextable-digit (b / 16) (omega arith) ∙ ap hex_digit (omega arith)

-- The buffer is filled from the front, two digits for each byte.
filled :
    (sum front back : List ℕ) (i : ℕ)
    → All IsByte sum
    → length front ≡ i * 2
    → length back ≡ length sum * 2
    → fill_hex i sum (front ++ back) ≡ front ++ hex_encode sum
unfolding fill_hex hex_encode
filled [] front [] i v e f = refl
filled [] front (x ∷ back) i v e f = absurd (omega arith)
filled (b ∷ sum) front [] i v e f = absurd (omega arith)
filled (b ∷ sum) front (x ∷ []) i v e f = absurd (omega arith)
filled (b ∷ sum) front (x ∷ y ∷ back) i v e f =
    let h = hex_digit (b / 16 % 16) in
    let l = hex_digit (b % 16) in
    rw (high-digit b v.0, hextable-digit (b % 16) (omega arith))
      (ap (fill_hex (suc i) sum) (write_two front back x y h l i e)
        ∙ filled sum (front ++ (h ∷ l ∷ [])) back (suc i) v.1
            (omega (arith, length-append {0} front (h ∷ l ∷ []))) (omega arith)
        ∙ append_assoc front (h ∷ l ∷ []) (hex_encode sum))

-- The client's own loop over a digest of 32 bytes writes what hex.EncodeToString writes.
pub wire_hash_hex-wire_hash :
    (source : KeySource) (password : List ℕ)
    → All IsByte (source.sha256 password)
    → length (source.sha256 password) ≡ 32
    → wire_hash_hex source password ≡ wire_hash source password
unfolding wire_hash_hex wire_hash
wire_hash_hex-wire_hash source password v e =
    filled (source.sha256 password) [] (replicate 64 0) 0 v refl (omega (arith, e))
