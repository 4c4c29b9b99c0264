-- ===== src/EndToEnd/Handshake.antt =====
-- authenticate against handleAuth.
use supervpn.Base.{
  ℕ, ◌%◌, ◌^◌, ◌<◌, ◌≡◌, refl, List, [], ◌∷◌, ltb, length, if◌then◌else◌, some, Bool, false, ok,
  arith, ap, sym, ◌∙◌, append-nil,
}
use supervpn.Base.Assoc.{find, find-store_self}
use supervpn.Base.Text.{codes, hex_encode}
use supervpn.Proto.Header.{InRange, frame_auth, parse_header-marshal}
use supervpn.Proto.Auth.Message.{auth_msg_ok, flag_fragment}
use supervpn.Proto.Auth.Reply.{AuthOk, IsAuthOk, marshal_ok, parse_ok, parse_ok-marshal_ok}
use supervpn.Config.Defaults.{FecConfig, fec_with_defaults}
use supervpn.Crypto.Keys.{KeySource, derive_key, derive_key-swap}
use supervpn.Fec.Pipe.{Pipe}
use supervpn.Hub.Switch.{Hub}
use supervpn.Link.Packet.{payload-marshal}
use supervpn.Server.State.{Outside, Server, sends, reply_header}
use supervpn.Server.Lifecycle.{new_session_id}
use supervpn.Server.Admission.{Peer, Draw, unsigned, hub_net_name, ok_packet, enter}
use supervpn.Server.Dispatch.{handle_packet}
use supervpn.Client.Address.{wire_hash_hex, wire_hash}
use supervpn.Client.Address.Hex.{wire_hash_hex-wire_hash}
use supervpn.Client.Login.{
  Account, AuthResult, hello_packet, use_auth_ok, on_auth_payload, on_reply, on_reply_auth,
}
use supervpn.EndToEnd.Entry.{IsAccount, Welcomes, session_of, server_enters}

abbrev pub result_of : ℕ → FecConfig → Bool → List ℕ → List ℕ → AuthResult
result_of id f frag_enabled key salt = record {
  session_id = id;
  key = key;
  cipher = record { counter = 0; peer_id = id; salt = salt };
  server_k = unsigned f.k % 2 ^ 8;
  server_r = unsigned f.r % 2 ^ 8;
  server_repair_delay = unsigned f.repair_delay % 2 ^ 16;
  server_flags = if frag_enabled then flag_fragment else 0;
}

module _ (source : KeySource) (a : Account) where
  -- Both ends write the digest in the same digits, and name the two ends in a different order.
  same_key :
      (key : List ℕ)
      → IsAccount source a
      → derive_key source
          (hex_encode (source.sha256 a.password))
          (hub_net_name a.hub_id)
          (codes "server")
          a.login
        ≡ some key
      → derive_key source
          (wire_hash_hex source a.password)
          (hub_net_name a.hub_id)
          a.login
          (codes "server")
        ≡ some key
  unfolding wire_hash
  same_key key v e =
      ap (λ t. derive_key source t (hub_net_name a.hub_id) a.login (codes "server"))
        (wire_hash_hex-wire_hash source a.password v.digest_bytes v.digest_length)
      ∙ derive_key-swap source (hex_encode (source.sha256 a.password)) (hub_net_name a.hub_id)
          a.login (codes "server")
      ∙ e

  uses_message :
      (key salt : List ℕ) (message : AuthOk)
      → derive_key source
          (wire_hash_hex source a.password)
          (hub_net_name a.hub_id)
          a.login
          (codes "server")
        ≡ some key
      → ltb (length key) 16 ≡ false
      → use_auth_ok source a salt (ok message)
        ≡ ok (record {
          session_id = message.session_id;
          key = key;
          cipher = record { counter = 0; peer_id = message.session_id; salt = salt };
          server_k = message.fec_k;
          server_r = message.fec_r;
          server_repair_delay = message.fec_repair_delay;
          server_flags = message.flags;
        })
  unfolding use_auth_ok hub_net_name
  uses_message key salt message e long = rw (use_auth_ok, e, long) refl

  client_reads :
      (id : ℕ) (f : FecConfig) (frag_enabled : Bool) (key salt : List ℕ)
      → id < 2 ^ 32
      → ltb (length key) 16 ≡ false
      → derive_key source
          (wire_hash_hex source a.password)
          (hub_net_name a.hub_id)
          a.login
          (codes "server")
        ≡ some key
      → on_reply source a salt (ok_packet id f frag_enabled)
        ≡ some (ok (result_of id f frag_enabled key salt))
  unfolding on_auth_payload use_auth_ok ok_packet hub_net_name
  client_reads id f frag_enabled key salt h long e =
      let r = result_of id f frag_enabled key salt in
      let message : AuthOk = record {
        session_id = id;
        fec_k = r.server_k;
        fec_r = r.server_r;
        fec_repair_delay = r.server_repair_delay;
        flags = r.server_flags;
      } in
      let header = reply_header frame_auth 0 in
      let in_range : InRange header = record {
        type_lt = omega arith;
        hub_lt = omega arith;
        session_lt = omega arith;
        seq_lt = omega arith;
      } in
      let is_ok : IsAuthOk message = record { session_lt = h; delay_lt = omega arith } in
      let body = auth_msg_ok ∷ marshal_ok message in
      on_reply_auth source a salt (ok_packet id f frag_enabled) header
        (parse_header-marshal header body in_range) refl
      ∙ ap (on_auth_payload source a salt) (payload-marshal header body)
      ∙ ap (λ m. some (use_auth_ok source a salt m))
          (ap parse_ok (sym (append-nil (marshal_ok message)))
            ∙ parse_ok-marshal_ok message [] is_ok)
      ∙ ap some (uses_message key salt message e long)

new_session_id-lt : (draw : ℕ) → draw < 2 ^ 32 → new_session_id draw < 2 ^ 32
unfolding new_session_id
new_session_id-lt draw h = ground arith

-- When a client sends its hello to a server that knows the account and lets it in, the server answers
-- with one packet on the path that the hello came on and keeps a session under the id it returns; from
-- that packet the client takes the same session id and the same key, the server's FEC parameters, and
-- the fragment flag exactly if the session has fragments enabled.
pub on_reply-handle_packet :
    (env : Outside) (now : ℕ) (draw : Draw) (peer : Peer) (srv : Server) (a : Account) (h : Hub)
    (key salt : List ℕ) (pipe : Pipe)
    → IsAccount env.keys a
    → Welcomes env now draw peer srv a h key pipe
    → draw.session < 2 ^ 32
    → let r = handle_packet env now draw (hello_packet env.keys a) peer false srv in
      let sess = session_of env now draw peer srv a key pipe in
      (reply : List ℕ) × (r.0 ≡ sends peer.path reply ∷ [])
      × (find r.1 r.2.sessions ≡ some sess)
      × (on_reply env.keys a salt reply
          ≡ some (ok (result_of r.1 (fec_with_defaults srv.fec) sess.frag_enabled sess.key salt)))
unfolding enter
on_reply-handle_packet env now draw peer srv a h key salt pipe v w d =
    let sess = session_of env now draw peer srv a key pipe in
    let f = fec_with_defaults srv.fec in
    rw (server_enters env now draw peer srv a h key pipe v w) (
      ok_packet sess.id f sess.frag_enabled,
      refl,
      find-store_self sess.id sess srv.sessions,
      client_reads env.keys a sess.id f sess.frag_enabled key salt
          (new_session_id-lt draw.session d) w.key_long (same_key env.keys a key v w.derived),
    )
