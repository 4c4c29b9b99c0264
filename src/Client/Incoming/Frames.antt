-- ===== src/Client/Incoming/Frames.antt =====
-- internal/vpnclient/client.go: which frames recvLoop passes on.
use supervpn.Base.{
  ℕ, ◌≤◌, ◌≡◌, refl, List, [], ◌∷◌, ◌++◌, ltb, ◌==◌, ◌&&◌, not, length, Option, none, some, Bool,
  All, All-append, ◌⊎◌, inl, inr, Bool-cases, Option-cases, ◌∙◌, ap, sym, append-nil, append_assoc,
  ltb-false→le, if_both,
}
use supervpn.Proto.Header.{
  Header, parse_header, frame_data, frame_repair, frame_data_frag, frame_auth, frame_pong,
}
use supervpn.Proto.Seq.{unpack_repair_seq}
use supervpn.Crypto.Packet.{Aead}
use supervpn.Link.Packet.{payload_of, unsealed}
use supervpn.Fec.Block.{Received, frames, err_unrecoverable}
use supervpn.Fec.Pipe.Receive.{repair_block_done}
use supervpn.Fec.Shards.{ReedSolomon}
use supervpn.Client.State.{Loop, Receiver}
use supervpn.Client.Incoming.{
  frame_bytes, whole_frames, take_data, take_repair, data_frame, fragment_frame, on_data,
  on_fragment, on_repair, on_packet, recv_step, recv_loop, Stepped, Next, goes_on, session_rejected,
}

-- The second list is the first and frames with a whole Ethernet header behind it.
abbrev pub Adds : List (List ℕ) → List (List ℕ) → Type 0
Adds out out' = (more : List (List ℕ)) × (out' ≡ out ++ more) × All (λ f. 14 ≤ length f) more

Adds-none : (out : List (List ℕ)) → Adds out out
Adds-none out = ([], sym (append-nil out), tt)

whole_frames-long : (fs : List (Option (List ℕ))) → All (λ f. 14 ≤ length f) (whole_frames fs)
unfolding whole_frames
whole_frames-long [] = tt
whole_frames-long (f ∷ fs) = elim (Bool-cases (ltb (length (frame_bytes f)) 14)) [
  | inl short ↦ rw short (whole_frames-long fs)
  | inr long ↦ rw long (ltb-false→le _ _ long, whole_frames-long fs)
]

Adds-take_data : (out : Received) (r : Receiver) → Adds r.out (take_data out r).out
unfolding take_data
Adds-take_data (frames fs) r = (whole_frames fs, refl, whole_frames-long fs)
Adds-take_data err_unrecoverable r = Adds-none r.out

Adds-take_repair : (out : Received) (r : Receiver) → Adds r.out (take_repair out r).out
unfolding take_repair
Adds-take_repair (frames fs) r = (whole_frames fs, refl, whole_frames-long fs)
Adds-take_repair err_unrecoverable r = Adds-none r.out

module _ (aead : Aead) (rs : ReedSolomon) where
  Adds-data_frame :
      (now : ℕ) (hdr : Header) (frame : Option (List ℕ)) (r : Receiver)
      → Adds r.out (data_frame aead rs now hdr frame r).out
  unfolding data_frame
  Adds-data_frame now hdr none r = Adds-none r.out
  Adds-data_frame now hdr (some f) r = Adds-take_data _ _

  Adds-on_data :
      (now : ℕ) (hdr : Header) (payload : List ℕ) (l : Loop) (r : Receiver)
      → Adds r.out (on_data aead rs now hdr payload l r).1.out
  unfolding on_data
  Adds-on_data now hdr payload l r = Adds-data_frame now hdr (unsealed aead payload l.replay).0 r

  Adds-fragment_frame :
      (now : ℕ) (hdr : Header) (frame : Option (List ℕ)) (r : Receiver)
      → Adds r.out (fragment_frame aead rs now hdr frame r).out
  unfolding fragment_frame
  Adds-fragment_frame now hdr none r = Adds-none r.out
  Adds-fragment_frame now hdr (some f) r = (whole_frames _, refl, whole_frames-long _)

  Adds-on_fragment :
      (now : ℕ) (hdr : Header) (payload : List ℕ) (l : Loop) (r : Receiver)
      → Adds r.out (on_fragment aead rs now hdr payload l r).1.out
  unfolding on_fragment
  Adds-on_fragment now hdr payload l r =
      Adds-fragment_frame now hdr (unsealed aead payload l.replay).0 r

  Adds-on_repair :
      (now : ℕ) (hdr : Header) (payload : List ℕ) (l : Loop) (r : Receiver)
      → Adds r.out (on_repair aead rs now hdr payload l r).1.out
  unfolding on_repair
  Adds-on_repair now hdr payload l r =
      elim (Bool-cases (repair_block_done (unpack_repair_seq hdr.seq).0 r.pipe)) [
        | inl done ↦ rw (on_repair, done) (Adds-none r.out)
        | inr wanted ↦ elim (Option-cases (unsealed aead payload l.replay).0) [
          | inl shut ↦ rw (on_repair, wanted, shut) (Adds-none r.out)
          | inr (f, open_) ↦ rw (on_repair, wanted, open_) (Adds-take_repair _ _)
        ]
      ]

  Adds-on_packet :
      (now : ℕ) (hdr : Header) (payload : List ℕ) (l : Loop) (r : Receiver)
      → Adds r.out (on_packet aead rs now hdr payload l r).2.out
  unfolding on_packet
  Adds-on_packet now hdr payload l r =
      let grows : Stepped → Type 0 = λ s. Adds r.out s.2.out in
      let same = Adds-none r.out in
      if_both grows (hdr.frame_type == frame_data) _ _ (Adds-on_data now hdr payload l r) (
        if_both grows (hdr.frame_type == frame_data_frag) _ _ (Adds-on_fragment now hdr payload l r)
          (if_both grows (hdr.frame_type == frame_repair) _ _ (Adds-on_repair now hdr payload l r) (
            if_both grows (hdr.frame_type == frame_pong) _ _ same
              (if_both grows (hdr.frame_type == frame_auth) _ _ same same))))

  Adds-recv_step :
      (now session_id : ℕ) (pkt : List ℕ) (l : Loop) (r : Receiver)
      → Adds r.out (recv_step aead rs now session_id pkt l r).2.out
  unfolding recv_step
  Adds-recv_step now session_id pkt l r = elim (Option-cases (parse_header pkt)) [
    | inl bad ↦ rw (recv_step, bad) (Adds-none r.out)
    | inr (hdr, good) ↦
        rw (recv_step, good)
          (if_both (λ (s : Stepped). Adds r.out s.2.out) (foreign hdr) _ _ (Adds-none r.out)
            (Adds-on_packet now hdr (payload_of pkt) l r))
  ]
    where
      foreign : Header → Bool
      foreign hdr = not (hdr.session_id == session_id) && not (hdr.frame_type == frame_auth)

Adds-then : (a b c : List (List ℕ)) → Adds a b → Adds b c → Adds a c
Adds-then a b c (m, e, v) (n, f, w) = (
  m ++ n,
  f ∙ ap (λ x. x ++ n) e ∙ append_assoc a m n,
  All-append (λ (x : List ℕ). 14 ≤ length x) m n v w,
)

Next-cases :
    (next : Next) → (next ≡ goes_on) ⊎ (message : List ℕ) × (next ≡ session_rejected message)
Next-cases goes_on = inl refl
Next-cases (session_rejected message) = inr (message, refl)

-- Whatever packets arrive, recvLoop takes no frame back and changes none that it has passed on: it adds
-- frames behind them, and each has the 14 bytes of an Ethernet header at least.
pub recv_loop-Adds :
    (aead : Aead) (rs : ReedSolomon) (session_id : ℕ) (pkts : List (ℕ × List ℕ)) (l : Loop)
    (r : Receiver)
    → Adds r.out (recv_loop aead rs session_id pkts l r).2.out
unfolding recv_loop
recv_loop-Adds aead rs session_id [] l r = Adds-none r.out
recv_loop-Adds aead rs session_id ((now, pkt) ∷ pkts) l r =
    let (next, l', r') = recv_step aead rs now session_id pkt l r in
    let one = Adds-recv_step aead rs now session_id pkt l r in
    let others = recv_loop-Adds aead rs session_id pkts l' r' in
    elim (Next-cases next) [
      | inl on ↦ rw (recv_loop, on) (Adds-then r.out r'.out _ one others)
      | inr (message, off) ↦ rw (recv_loop, off) one
    ]
