-- ===== src/Client/Incoming.antt =====
-- internal/vpnclient/client.go: recvLoop. A step handles one packet; the reader of `out` is not modelled
-- and the context is not cancelled.
pub mod Frames
use supervpn.Base.{
  ◌≡◌, refl, true, arith, ℕ, ◌+◌, ◌%◌, ◌^◌, List, [], ◌∷◌, ◌++◌, ltb, ◌==◌, ◌||◌, ◌&&◌, not,
  if◌then◌else◌, length, Option, none, some, Bool,
}
use supervpn.Proto.Header.{
  Header, parse_header, frame_data, frame_repair, frame_data_frag, frame_auth, frame_pong,
}
use supervpn.Proto.Auth.Message.{auth_msg_error}
use supervpn.Proto.Auth.Reply.{parse_error}
use supervpn.Proto.Seq.{unpack_data_seq, unpack_repair_seq, unpack_frag_seq}
use supervpn.Crypto.Packet.{Aead}
use supervpn.Link.Packet.{payload_of, unsealed}
use supervpn.Fec.Block.{Received, frames, err_unrecoverable}
use supervpn.Fec.Pipe.Receive.{recv_data, recv_repair, repair_block_done}
use supervpn.Fec.Shards.{ReedSolomon}
use supervpn.Fragment.Reassembler
use supervpn.Client.Login.{message_of}
use supervpn.Client.State.{Loop, Receiver}

-- The loop goes on, or returns the error that the server rejected the session.
pub data Next : Type 0 where
  goes_on : Next
  session_rejected : List ℕ → Next

abbrev pub Stepped : Type 0
Stepped = Next × Loop × Receiver

abbrev pub continue : Loop × Receiver → Stepped
continue (l, r) = (goes_on, l, r)

-- `len(nil)` is 0.
abbrev pub frame_bytes : Option (List ℕ) → List ℕ
frame_bytes none = []
frame_bytes (some f) = f

-- The frames of 14 bytes or more.
unfoldable pub whole_frames : List (Option (List ℕ)) → List (List ℕ)
whole_frames [] = []
whole_frames (f ∷ fs) =
    let rest = whole_frames fs in
    if ltb (length (frame_bytes f)) 14 then rest else frame_bytes f ∷ rest

abbrev pub push_out : List (Option (List ℕ)) → Receiver → Receiver
push_out fs r = record r { out = r.out ++ whole_frames fs }

abbrev pub add64 : ℕ → ℕ → ℕ
add64 a b = (a + b) % 2 ^ 64

abbrev pub count_data : ℕ → Receiver → Receiver
count_data n r = record r {
  stats = record r.stats {
    data_recv = add64 r.stats.data_recv 1;
    bytes_rx = add64 r.stats.bytes_rx n;
  };
}

abbrev pub count_repair : ℕ → Receiver → Receiver
count_repair n r = record r {
  stats = record r.stats {
    repair_recv = add64 r.stats.repair_recv 1;
    bytes_rx = add64 r.stats.bytes_rx n;
  };
}

abbrev pub count_fragment : ℕ → Receiver → Receiver
count_fragment n r = record r { stats = record r.stats { bytes_rx = add64 r.stats.bytes_rx n } }

abbrev pub count_lost : Receiver → Receiver
count_lost r = record r { stats = record r.stats { unrecoverable = add64 r.stats.unrecoverable 1 } }

abbrev pub count_recovered : ℕ → Receiver → Receiver
count_recovered n r = record r { stats = record r.stats { recovered = add64 r.stats.recovered n } }

-- What the decoder gave for a data packet, and for a repair packet.
unfoldable pub take_data : Received → Receiver → Receiver
take_data (frames fs) r = push_out fs r
take_data err_unrecoverable r = count_lost r

unfoldable pub take_repair : Received → Receiver → Receiver
take_repair (frames fs) r = push_out fs (count_recovered (length fs) r)
take_repair err_unrecoverable r = count_lost r

-- Whether the warning about other parameters is written now.
abbrev pub differs : ℕ → ℕ → ℕ → ℕ → Bool
differs block_k block_r k r = not (block_k == k) || not (block_r == r)

module _ (aead : Aead) (rs : ReedSolomon) where
  unfoldable pub data_frame : ℕ → Header → Option (List ℕ) → Receiver → Receiver
  data_frame now hdr none r = r
  data_frame now hdr (some f) r =
      let (block_id, pkt_idx) = unpack_data_seq hdr.seq in
      let (out, pipe) = recv_data rs now block_id pkt_idx f r.pipe in
      take_data out (record (count_data (length f) r) { pipe = pipe })

  unfoldable pub on_data : ℕ → Header → List ℕ → Loop → Receiver → Loop × Receiver
  on_data now hdr payload l r =
      let (frame, replay) = unsealed aead payload l.replay in
      (record l { replay = replay }, data_frame now hdr frame r)

  unfoldable pub fragment_frame : ℕ → Header → Option (List ℕ) → Receiver → Receiver
  fragment_frame now hdr none r = r
  fragment_frame now hdr (some f) r =
      let (frag_id, idx, count) = unpack_frag_seq hdr.seq in
      let (whole, reasm) = Reassembler.add now frag_id idx count f r.reasm in
      push_out (whole ∷ []) (record (count_fragment (length f) r) { reasm = reasm })

  unfoldable pub on_fragment : ℕ → Header → List ℕ → Loop → Receiver → Loop × Receiver
  on_fragment now hdr payload l r =
      let (frame, replay) = unsealed aead payload l.replay in
      (record l { replay = replay }, fragment_frame now hdr frame r)

  unfoldable pub on_repair : ℕ → Header → List ℕ → Loop → Receiver → Loop × Receiver
  on_repair now hdr payload l r =
      let (block_id, repair_idx, block_k, block_r) = unpack_repair_seq hdr.seq in
      let (frame, replay) = unsealed aead payload l.replay in
      let odd = differs block_k block_r r.pipe.enc.k r.pipe.enc.r in
      let moved : Loop = record l { replay = replay } in
      let warned : Loop = record moved { mismatch_logged = l.mismatch_logged || odd } in
      if repair_block_done block_id r.pipe then (l, r) else (elim frame [
        | none ↦ (moved, r)
        | some f ↦
            let (out, pipe) = recv_repair rs now block_id repair_idx f r.pipe in
            (warned, take_repair out (record (count_repair (length f) r) { pipe = pipe }))
      ])

  -- A FrameAuth in the session: the server has lost it.
  unfoldable pub on_auth : List ℕ → Next
  on_auth [] = goes_on
  on_auth (kind ∷ body) =
      if kind == auth_msg_error then session_rejected (message_of (parse_error body)) else goes_on

  unfoldable pub on_packet : ℕ → Header → List ℕ → Loop → Receiver → Stepped
  on_packet now hdr payload l r =
      if hdr.frame_type == frame_data
      then continue (on_data now hdr payload l r)
      else if hdr.frame_type == frame_data_frag
      then continue (on_fragment now hdr payload l r)
      else if hdr.frame_type == frame_repair
      then continue (on_repair now hdr payload l r)
      else if hdr.frame_type == frame_pong
      then (goes_on, l, record r { last_pong = now })
      else if hdr.frame_type == frame_auth
      then (on_auth payload, l, r)
      else (goes_on, l, r)

  unfoldable pub recv_step : ℕ → ℕ → List ℕ → Loop → Receiver → Stepped
  recv_step now session_id pkt l r = elim (parse_header pkt) [
    | none ↦ (goes_on, l, r)
    | some hdr ↦
        if not (hdr.session_id == session_id) && not (hdr.frame_type == frame_auth)
        then (goes_on, l, r)
        else on_packet now hdr (payload_of pkt) l r
  ]

  pub recv_step_parsed :
      (now session_id : ℕ) (pkt : List ℕ) (l : Loop) (r : Receiver) (hdr : Header)
      → parse_header pkt ≡ some hdr
      → hdr.session_id ≡ session_id
      → recv_step now session_id pkt l r ≡ on_packet now hdr (payload_of pkt) l r
  unfolding recv_step
  recv_step_parsed now session_id pkt l r hdr e own =
      let is_own : (hdr.session_id == session_id) ≡ true = ground arith in
      rw (recv_step, e, is_own) refl

  -- The loop over the packets that the transport gives, each with the time of its handling.
  unfoldable pub recv_loop : ℕ → List (ℕ × List ℕ) → Loop → Receiver → Stepped
  recv_loop session_id [] l r = (goes_on, l, r)
  recv_loop session_id ((now, pkt) ∷ pkts) l r =
      let (next, l', r') = recv_step now session_id pkt l r in
      elim next [
        | goes_on ↦ recv_loop session_id pkts l' r'
        | session_rejected message ↦ (session_rejected message, l', r')
      ]
