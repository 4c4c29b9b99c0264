-- ===== src/Proto/Auth/Reply.antt =====
-- internal/proto/packet.go: AuthOK and AuthError, the server's answers.
use supervpn.Base.{
  ℕ, zero, suc, ◌+◌, ◌≤◌, ◌<◌, ◌^◌, ◌≡◌, ◌≢◌, refl, List, [], ◌∷◌, ◌++◌, arith, leb, ltb,
  if◌then◌else◌, length, take, byte, put_u16, put_u32, big_endian, big_endian-put_u16,
  big_endian-put_u32, Go, ok, panic, guard, index, slice, slice_ok, slice-append, ◌>>=◌, ◌>>◌,
  Bool-cases, inl, inr, length-append, length-take, index-ne-panic, ap, take_all, ltb→lt,
  ltb-false→le,
}

pub record AuthOk : Type 0 where
  pub session_id : ℕ
  pub fec_k : ℕ
  pub fec_r : ℕ
  pub fec_repair_delay : ℕ
  pub flags : ℕ

pub data ReplyError : Type 0 where
  ok_too_short : ReplyError
  error_too_short : ReplyError
  error_truncated : ℕ → ReplyError

-- The ranges of the Go types. The three single bytes are stored as they are.
pub record IsAuthOk (a : AuthOk) : Type 0 where
  pub session_lt : a.session_id < 2 ^ 32
  pub delay_lt : a.fec_repair_delay < 2 ^ 16

unfoldable pub marshal_ok : AuthOk → List ℕ
marshal_ok a =
    put_u32 a.session_id ++ (a.fec_k ∷ a.fec_r ∷ (put_u16 a.fec_repair_delay ++ (a.flags ∷ [])))

unfoldable pub parse_ok : List ℕ → Go ReplyError AuthOk
parse_ok b = do
  guard (leb 4 (length b)) ok_too_short
  session ← slice 0 4 b
  k ← if leb 6 (length b) then index 4 b else ok 0
  r ← if leb 6 (length b) then index 5 b else ok 0
  delay ← if leb 8 (length b) then slice 6 8 b else ok []
  f ← if leb 9 (length b) then index 8 b else ok 0
  ok (record {
    session_id = big_endian session;
    fec_k = k;
    fec_r = r;
    fec_repair_delay = big_endian delay;
    flags = f;
  })

-- A client reads back every AuthOK, also one that a later server makes longer.
pub parse_ok-marshal_ok :
    (a : AuthOk) (tail : List ℕ) → IsAuthOk a → parse_ok (marshal_ok a ++ tail) ≡ ok a
unfolding parse_ok marshal_ok index slice
parse_ok-marshal_ok a tail v =
    ground (arith, big_endian-put_u32 a.session_id, big_endian-put_u16 a.fec_repair_delay)

-- What the first n bytes say: an older server sends 4, 6 or 8 of them.
abbrev pub seen_at : ℕ → AuthOk → AuthOk
seen_at n a = record {
  session_id = a.session_id;
  fec_k = if leb 6 n then a.fec_k else 0;
  fec_r = if leb 6 n then a.fec_r else 0;
  fec_repair_delay = if leb 8 n then a.fec_repair_delay else 0;
  flags = if leb 9 n then a.flags else 0;
}

-- From the first 4 to 9 bytes of an AuthOK a client reads the session id and those of the FEC pair,
-- the delay and the flags that are whole; the others read as 0.
pub parse_ok-take :
    (n : ℕ) (a : AuthOk)
    → IsAuthOk a
    → 4 ≤ n
    → n ≤ 9
    → parse_ok (take n (marshal_ok a)) ≡ ok (seen_at n a)
unfolding parse_ok marshal_ok index slice
parse_ok-take (suc (suc (suc (suc zero)))) a v h k =
    ap (λ s. ok (seen_at 4 (record a { session_id = s })))
      (big_endian-put_u32 a.session_id v.session_lt)
parse_ok-take (suc (suc (suc (suc (suc zero))))) a v h k =
    ground (arith, big_endian-put_u32 a.session_id)
parse_ok-take (suc (suc (suc (suc (suc (suc zero)))))) a v h k =
    ground (arith, big_endian-put_u32 a.session_id)
parse_ok-take (suc (suc (suc (suc (suc (suc (suc zero))))))) a v h k =
    ground (arith, big_endian-put_u32 a.session_id)
parse_ok-take (suc (suc (suc (suc (suc (suc (suc (suc zero)))))))) a v h k =
    ground (arith, big_endian-put_u32 a.session_id, big_endian-put_u16 a.fec_repair_delay)
parse_ok-take (suc (suc (suc (suc (suc (suc (suc (suc (suc zero))))))))) a v h k =
    ground (arith, big_endian-put_u32 a.session_id, big_endian-put_u16 a.fec_repair_delay)
parse_ok-take n a v h k = absurd (omega arith)

-- On any input the parser stays inside the buffer.
pub parse_ok-ne-panic : (b : List ℕ) → parse_ok b ≢ panic
unfolding parse_ok
parse_ok-ne-panic b = ground (
  arith,
  slice_ok {E = ReplyError} 0 4 b,
  slice_ok {E = ReplyError} 6 8 b,
  index-ne-panic {E = ReplyError} 4 b,
  index-ne-panic {E = ReplyError} 5 b,
  index-ne-panic {E = ReplyError} 8 b,
)

-- `AuthError`: the message, cut to what its length byte can say.
unfoldable pub marshal_error : List ℕ → List ℕ
marshal_error message =
    let msg_bytes = if ltb 255 (length message) then take 255 message else message in
    byte (length msg_bytes) ∷ msg_bytes

unfoldable pub parse_error : List ℕ → Go ReplyError (List ℕ)
parse_error b = do
  guard (leb 1 (length b)) error_too_short
  msg_len ← index 0 b
  guard (leb (1 + msg_len) (length b)) (error_truncated msg_len)
  slice 1 (1 + msg_len) b

prefixed :
    (n x : ℕ) (msg tail : List ℕ)
    → length msg ≡ n
    → n < 256
    → x ≡ byte n
    → parse_error (x ∷ (msg ++ tail)) ≡ ok msg
unfolding parse_error index
prefixed n x msg tail h k e =
    ground
      (arith, length-append msg tail, slice-append {E = ReplyError} (x ∷ []) msg tail 1 (1 + n))

-- What a client shows is the first 255 bytes of the server's message.
pub parse_error-marshal_error :
    (message tail : List ℕ) → parse_error (marshal_error message ++ tail) ≡ ok (take 255 message)
unfolding marshal_error
parse_error-marshal_error message tail = elim (Bool-cases (ltb 255 (length message))) [
  | inl long ↦ rw long (
      prefixed 255 _ (take 255 message) tail
        (omega (arith, length-take 255 message, ltb→lt 255 (length message) long)) (omega arith)
        (rw (length-take 255 message) (omega (arith, ltb→lt 255 (length message) long))))
  | inr short ↦
      let fits = ltb-false→le 255 (length message) short in
      rw (short, take_all 255 message fits)
        (prefixed (length message) _ message tail refl (omega arith) refl)
]
