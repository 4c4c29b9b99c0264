-- ===== src/Server/Members/Packets.antt =====
-- The handlers of packets keep the agreement of hubs and sessions, and what they send goes back to the
-- peer or to other members of the session's hub.
use supervpn.Base.{
  ℕ, ◌≡◌, refl, List, Option, none, some, Bool, All, All-map, inl, inr, subst, Option-cases,
  if_both,
}
use supervpn.Base.Assoc.{find}
use supervpn.Proto.Header.{Header}
use supervpn.Proto.Seq.{unpack_repair_seq}
use supervpn.Fec.Pipe.Receive.{repair_block_done}
use supervpn.Link.Packet.{unsealed}
use supervpn.Server.State.{Outside, Session, Server, Effect}
use supervpn.Server.Incoming.{
  register, deliver, open_from, put_session, take_data, session_data, handle_data, take_frag,
  session_frag, handle_frag, take_repair, session_repair, handle_repair,
}
use supervpn.Server.Members.Forwarding.{ToOther}
use supervpn.Server.Members.Invariant.{
  Agrees, Keeps, Keeps-refl, Keeps-trans, Agrees-Keeps, Keeps-put_session, deliver-ToOther,
}

-- A packet to another member of the hub that the source's session has.
abbrev pub ToHubOf : ℕ → Server → Server → Effect → Type 0
ToHubOf src srv srv' e =
    (sess : Session) × (find src srv.sessions ≡ some sess) × ToOther srv'.sessions sess.hub_id src e

-- All effects are such packets, and sessions and clients are kept.
abbrev pub Forwards : ℕ → Server → List Effect × Server → Type 0
Forwards src srv (out, srv') = All (ToHubOf src srv srv') out × Keeps srv srv'

register-hub :
    (secondary : Bool) (path : ℕ) (addr : List ℕ) (s : Session)
    → (register secondary path addr s).hub_id ≡ s.hub_id
unfolding register
register-hub secondary path addr s = elim (Option-cases s.send_raw2) [
  | inr (p, has) ↦ rw (register, has) refl
  | inl has_none ↦
      rw (register, has_none)
        (if_both (λ (x : Session). x.hub_id ≡ s.hub_id) secondary _ _ refl refl)
]

module _ (env : Outside) where
  open_from-hub :
      (payload : List ℕ) (path : ℕ) (addr : List ℕ) (secondary : Bool) (s : Session)
      → (open_from env payload path addr secondary s).1.hub_id ≡ s.hub_id
  unfolding open_from
  open_from-hub payload path addr secondary s =
      elim (Option-cases (unsealed (env.aead_of s.key) payload s.replay).0) [
        | inl shut ↦ rw (open_from, shut) refl
        | inr (f, open_) ↦ rw (open_from, open_) (register-hub secondary path addr _)
      ]

  -- A session is written back and its frames are delivered.
  put_then_deliver :
      (now src : ℕ) (fs : List (Option (List ℕ))) (sess old : Session) (srv : Server)
      → find src srv.sessions ≡ some old
      → sess.hub_id ≡ old.hub_id
      → Agrees srv
      → Forwards src srv (deliver env now src sess.hub_id fs (put_session env sess src srv))
  put_then_deliver now src fs sess old srv found same v =
      let put = put_session env sess src srv in
      let kept = Keeps-put_session env sess old src srv found same in
      let r = deliver env now src sess.hub_id fs put in
      let (out, kept2) =
        deliver-ToOther env now src sess.hub_id fs put (Agrees-Keeps srv put kept v) in
      (
        All-map (ToOther r.1.sessions sess.hub_id src) (ToHubOf src srv r.1)
            (λ e to. (old, found, subst (λ hub. ToOther r.1.sessions hub src e) same to)) r.0 out,
        Keeps-trans srv put r.1 kept kept2,
      )

  Forwards-take_data :
      (now : ℕ) (hdr : Header) (frame : Option (List ℕ)) (seen sess : Session) (srv : Server)
      → find hdr.session_id srv.sessions ≡ some sess
      → seen.hub_id ≡ sess.hub_id
      → Agrees srv
      → Forwards hdr.session_id srv (take_data env now hdr (frame, seen) srv)
  unfolding take_data
  Forwards-take_data now hdr none seen sess srv found same v =
      (tt, Keeps-put_session env seen sess hdr.session_id srv found same)
  Forwards-take_data now hdr (some f) seen sess srv found same v =
      put_then_deliver now hdr.session_id _ _ sess srv found same v

  Forwards-take_frag :
      (now : ℕ) (hdr : Header) (frame : Option (List ℕ)) (seen sess : Session) (srv : Server)
      → find hdr.session_id srv.sessions ≡ some sess
      → seen.hub_id ≡ sess.hub_id
      → Agrees srv
      → Forwards hdr.session_id srv (take_frag env now hdr (frame, seen) srv)
  unfolding take_frag
  Forwards-take_frag now hdr none seen sess srv found same v =
      (tt, Keeps-put_session env seen sess hdr.session_id srv found same)
  Forwards-take_frag now hdr (some f) seen sess srv found same v =
      put_then_deliver now hdr.session_id _ _ sess srv found same v

  Forwards-take_repair :
      (now : ℕ) (hdr : Header) (frame : Option (List ℕ)) (seen sess : Session) (srv : Server)
      → find hdr.session_id srv.sessions ≡ some sess
      → seen.hub_id ≡ sess.hub_id
      → Agrees srv
      → Forwards hdr.session_id srv (take_repair env now hdr (frame, seen) srv)
  unfolding take_repair
  Forwards-take_repair now hdr none seen sess srv found same v =
      (tt, Keeps-put_session env seen sess hdr.session_id srv found same)
  Forwards-take_repair now hdr (some f) seen sess srv found same v =
      put_then_deliver now hdr.session_id _ _ sess srv found same v

  pub Forwards-handle_data :
      (now : ℕ) (hdr : Header) (payload : List ℕ) (path : ℕ) (addr : List ℕ) (secondary : Bool)
      (srv : Server)
      → Agrees srv
      → Forwards hdr.session_id srv (handle_data env now hdr payload path addr secondary srv)
  unfolding handle_data session_data
  Forwards-handle_data now hdr payload path addr secondary srv v =
      elim (Option-cases (find hdr.session_id srv.sessions)) [
        | inl unknown ↦ rw (handle_data, unknown) (tt, Keeps-refl srv)
        | inr (sess, found) ↦
            let heard : Session = record sess { last_seen = now } in
            rw (handle_data, found)
              (Forwards-take_data now hdr (open_from env payload path addr secondary heard).0
                (open_from env payload path addr secondary heard).1 sess srv found
                (open_from-hub payload path addr secondary heard) v)
      ]

  pub Forwards-handle_frag :
      (now : ℕ) (hdr : Header) (payload : List ℕ) (path : ℕ) (addr : List ℕ) (secondary : Bool)
      (srv : Server)
      → Agrees srv
      → Forwards hdr.session_id srv (handle_frag env now hdr payload path addr secondary srv)
  unfolding handle_frag session_frag
  Forwards-handle_frag now hdr payload path addr secondary srv v =
      elim (Option-cases (find hdr.session_id srv.sessions)) [
        | inl unknown ↦ rw (handle_frag, unknown) (tt, Keeps-refl srv)
        | inr (sess, found) ↦
            let heard : Session = record sess { last_seen = now } in
            rw (handle_frag, found)
              (Forwards-take_frag now hdr (open_from env payload path addr secondary heard).0
                (open_from env payload path addr secondary heard).1 sess srv found
                (open_from-hub payload path addr secondary heard) v)
      ]

  pub Forwards-handle_repair :
      (now : ℕ) (hdr : Header) (payload : List ℕ) (path : ℕ) (addr : List ℕ) (secondary : Bool)
      (srv : Server)
      → Agrees srv
      → Forwards hdr.session_id srv (handle_repair env now hdr payload path addr secondary srv)
  unfolding handle_repair session_repair
  Forwards-handle_repair now hdr payload path addr secondary srv v =
      elim (Option-cases (find hdr.session_id srv.sessions)) [
        | inl unknown ↦ rw (handle_repair, unknown) (tt, Keeps-refl srv)
        | inr (sess, found) ↦
            rw (handle_repair, found)
              (if_both (Forwards hdr.session_id srv)
                (repair_block_done (unpack_repair_seq hdr.seq).0 sess.pipe) _ _ (tt, Keeps-refl srv)
                (Forwards-take_repair now hdr (open_from env payload path addr secondary sess).0
                  (open_from env payload path addr secondary sess).1 sess srv found
                  (open_from-hub payload path addr secondary sess) v))
      ]
