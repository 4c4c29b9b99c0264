-- ===== src/Server/Incoming.antt =====
-- cmd/supervpn-server/main.go: handleData, handleFrag and handleRepair.
use supervpn.Base.{
  ℕ, ◌+◌, List, [], ◌∷◌, ◌++◌, leb, if◌then◌else◌, length, Option, none, some, Bool,
}
use supervpn.Base.Assoc.{find, store}
use supervpn.Proto.Header.{Header}
use supervpn.Proto.Seq.{unpack_data_seq, unpack_repair_seq, unpack_frag_seq}
use supervpn.Link.Packet.{unsealed}
use supervpn.Fec.Block.{Received, frames, err_unrecoverable}
use supervpn.Fec.Pipe.Receive.{recv_data, recv_repair, repair_block_done}
use supervpn.Fragment.Reassembler
use supervpn.Hub.Switch.{Hub, forward}
use supervpn.Hub.Manager.{get}
use supervpn.Server.State.{Outside, Session, Server, Effect}
use supervpn.Server.Outgoing.{client_send}

abbrev pub Sessions : Type 0
Sessions = List (ℕ × Session)

-- `len(nil)` is 0.
abbrev pub frame_bytes : Option (List ℕ) → List ℕ
frame_bytes none = []
frame_bytes (some f) = f

abbrev pub received_frames : Received → List (Option (List ℕ))
received_frames (frames out) = out
received_frames err_unrecoverable = []

-- A secondary UDP path is registered by the first packet that opens.
unfoldable pub register : Bool → ℕ → List ℕ → Session → Session
register secondary path addr sess = elim sess.send_raw2 [
  | some p ↦ sess
  | none ↦ if secondary then record sess { send_raw2 = some path; secondary_addr = addr } else sess
]

abbrev pub count_rx : Session → Session
count_rx sess = record sess { frames_rx = sess.frames_rx + 1 }

unfoldable pub count_frame : ℕ → Sessions → Sessions
count_frame id sessions = elim (find id sessions) [
  | none ↦ sessions
  | some sess ↦ store id (count_rx sess) sessions
]

module _ (env : Outside) where
  -- The hub's call of one client's Send, which works on that client's session.
  unfoldable pub send_to : ℕ → List ℕ → ℕ → Sessions → List Effect × Sessions
  send_to now frame target sessions = elim (find target sessions) [
    | none ↦ ([], sessions)
    | some sess ↦
        let (out, sent) = client_send env now frame sess in (out, store target sent sessions)
  ]

  unfoldable pub send_each : ℕ → List ℕ → List ℕ → Sessions → List Effect × Sessions
  send_each now frame [] sessions = ([], sessions)
  send_each now frame (t ∷ targets) sessions =
      let (out, sent) = send_to now frame t sessions in
      let (more, last) = send_each now frame targets sent in (out ++ more, last)

  -- `if len(f) >= 14 { sess.framesRx.Add(1); h.Forward(hdr.SessionID, f) }`
  unfoldable pub forward_frame : ℕ → ℕ → List ℕ → Hub → Sessions → List Effect × Hub × Sessions
  forward_frame now src frame h sessions =
      let (targets, h') = forward now src frame h in
      let (out, sent) = send_each now frame targets (count_frame src sessions) in
      if leb 14 (length frame) then (out, h', sent) else ([], h, sessions)

  unfoldable pub forward_frames :
      ℕ → ℕ → List (Option (List ℕ)) → Hub → Sessions → List Effect × Hub × Sessions
  forward_frames now src [] h sessions = ([], h, sessions)
  forward_frames now src (f ∷ fs) h sessions =
      let (out, h1, sent) = forward_frame now src (frame_bytes f) h sessions in
      let (more, h2, last) = forward_frames now src fs h1 sent in (out ++ more, h2, last)

  -- The frames that a session's packet gave go to the session's hub, if there is one.
  unfoldable pub deliver : ℕ → ℕ → ℕ → List (Option (List ℕ)) → Server → List Effect × Server
  deliver now src hub_id fs srv = elim (get hub_id srv.manager) [
    | none ↦ ([], srv)
    | some h ↦
        let (out, h', sessions) = forward_frames now src fs h srv.sessions in
        (out, record srv { manager = store hub_id h' srv.manager; sessions = sessions })
  ]

  -- `Open`, and the registration of the secondary path if it succeeds.
  unfoldable pub open_from : List ℕ → ℕ → List ℕ → Bool → Session → Option (List ℕ) × Session
  open_from payload path addr secondary sess =
      let (frame, replay) = unsealed (env.aead_of sess.key) payload sess.replay in
      let moved : Session = record sess { replay = replay } in
      (frame, (elim frame [ none ↦ moved | some f ↦ register secondary path addr moved ]))

  abbrev pub put_session : Session → ℕ → Server → Server
  put_session sess id srv = record srv { sessions = store id sess srv.sessions }

  -- What handleData does with the result of Open.
  unfoldable pub take_data : ℕ → Header → Option (List ℕ) × Session → Server → List Effect × Server
  take_data now hdr (none, seen) srv = ([], put_session seen hdr.session_id srv)
  take_data now hdr (some frame, seen) srv =
      let (block_id, pkt_idx) = unpack_data_seq hdr.seq in
      let (out, pipe) = recv_data env.reed_solomon now block_id pkt_idx frame seen.pipe in
      deliver now hdr.session_id seen.hub_id (received_frames out)
        (put_session (record seen { pipe = pipe }) hdr.session_id srv)

  -- What it does once the session is found.
  unfoldable pub session_data :
      ℕ → Header → List ℕ → ℕ → List ℕ → Bool → Session → Server → List Effect × Server
  session_data now hdr payload path addr secondary sess srv =
      take_data now hdr (open_from payload path addr secondary (record sess { last_seen = now }))
        srv

  unfoldable pub handle_data :
      ℕ → Header → List ℕ → ℕ → List ℕ → Bool → Server → List Effect × Server
  handle_data now hdr payload path addr secondary srv = elim (find hdr.session_id srv.sessions) [
    | none ↦ ([], srv)
    | some sess ↦ session_data now hdr payload path addr secondary sess srv
  ]

  unfoldable pub take_frag : ℕ → Header → Option (List ℕ) × Session → Server → List Effect × Server
  take_frag now hdr (none, seen) srv = ([], put_session seen hdr.session_id srv)
  take_frag now hdr (some frame, seen) srv =
      let (frag_id, idx, count) = unpack_frag_seq hdr.seq in
      let (whole, reasm) = Reassembler.add now frag_id idx count frame seen.reasm in
      deliver now hdr.session_id seen.hub_id (elim whole [ none ↦ [] | some w ↦ some w ∷ [] ])
        (put_session (record seen { reasm = reasm }) hdr.session_id srv)

  unfoldable pub session_frag :
      ℕ → Header → List ℕ → ℕ → List ℕ → Bool → Session → Server → List Effect × Server
  session_frag now hdr payload path addr secondary sess srv =
      take_frag now hdr (open_from payload path addr secondary (record sess { last_seen = now }))
        srv

  unfoldable pub handle_frag :
      ℕ → Header → List ℕ → ℕ → List ℕ → Bool → Server → List Effect × Server
  handle_frag now hdr payload path addr secondary srv = elim (find hdr.session_id srv.sessions) [
    | none ↦ ([], srv)
    | some sess ↦ session_frag now hdr payload path addr secondary sess srv
  ]

  unfoldable pub take_repair :
      ℕ → Header → Option (List ℕ) × Session → Server → List Effect × Server
  take_repair now hdr (none, seen) srv = ([], put_session seen hdr.session_id srv)
  take_repair now hdr (some frame, seen) srv =
      let (block_id, repair_idx, block_k, block_r) = unpack_repair_seq hdr.seq in
      let (out, pipe) = recv_repair env.reed_solomon now block_id repair_idx frame seen.pipe in
      deliver now hdr.session_id seen.hub_id (received_frames out)
        (put_session (record seen { pipe = pipe }) hdr.session_id srv)

  -- The time of the last packet is not written here.
  unfoldable pub session_repair :
      ℕ → Header → List ℕ → ℕ → List ℕ → Bool → Session → Server → List Effect × Server
  session_repair now hdr payload path addr secondary sess srv =
      if repair_block_done (unpack_repair_seq hdr.seq).0 sess.pipe
      then ([], srv)
      else take_repair now hdr (open_from payload path addr secondary sess) srv

  unfoldable pub handle_repair :
      ℕ → Header → List ℕ → ℕ → List ℕ → Bool → Server → List Effect × Server
  handle_repair now hdr payload path addr secondary srv = elim (find hdr.session_id srv.sessions) [
    | none ↦ ([], srv)
    | some sess ↦ session_repair now hdr payload path addr secondary sess srv
  ]
