-- ===== src/Server/Members/Forwarding.antt =====
-- What a hub sends goes to the paths of its own members, other than the source.
use supervpn.Base.{
  ℕ, ◌≡◌, ◌≢◌, refl, List, [], ◌∷◌, leb, length, Option, some, All, All-append, inl, inr, ◌∙◌, sym,
  subst, Bool-cases, Option-cases,
}
use supervpn.Base.Assoc.{find}
use supervpn.Base.Related.{Related, Related-refl, Related-trans, Related-store}
use supervpn.Hub.Switch.{Hub, forward}
use supervpn.Hub.Learning.{forward-ne_source}
use supervpn.Hub.Targets.{OfClients, forward-All, forward-clients}
use supervpn.Server.State.{Outside, Session, Effect}
use supervpn.Server.Incoming.{
  Sessions, frame_bytes, count_rx, count_frame, send_to, send_each, forward_frame, forward_frames,
}
use supervpn.Server.Members.Sending.{
  OnPath, SameLinks, SameLinks-refl, SameLinks-trans, Sends-client_send,
}

-- A session of that id that belongs to the hub.
abbrev pub MemberOf : Sessions → ℕ → ℕ → Type 0
MemberOf sessions hub_id t = (s : Session) × (find t sessions ≡ some s) × (s.hub_id ≡ hub_id)

-- The sessions are kept, with their hubs and paths.
abbrev pub Linked : Sessions → Sessions → Type 0
Linked = Related SameLinks

-- A packet to a member of the hub other than the source.
abbrev pub ToOther : Sessions → ℕ → ℕ → Effect → Type 0
ToOther sessions hub_id src e =
    (t : ℕ) × (s : Session) × (t ≢ src)
    × (find t sessions ≡ some s)
    × (s.hub_id ≡ hub_id)
    × OnPath s.send_raw s.send_raw2 e

pub Linked-trans : (a b c : Sessions) → Linked a b → Linked b c → Linked a c
Linked-trans = Related-trans SameLinks SameLinks-trans

count_frame-Linked : (id : ℕ) (sessions : Sessions) → Linked sessions (count_frame id sessions)
unfolding count_frame
count_frame-Linked id sessions = elim (Option-cases (find id sessions)) [
  | inl none_ ↦ rw (count_frame, none_) (Related-refl SameLinks SameLinks-refl sessions)
  | inr (s, found) ↦
      rw (count_frame, found)
        (Related-store SameLinks SameLinks-refl id s (count_rx s) sessions found
          (record { hub = refl; raw = refl; raw2 = refl }))
]

-- Relative to the sessions at the start, and to the hub and the source.
module _ (env : Outside) (start : Sessions) (hub_id src : ℕ) where
  abbrev Relays : List Effect × Sessions → Type 0
  Relays (out, sessions) = All (ToOther start hub_id src) out × Linked start sessions

  on_paths :
      (t : ℕ) (s0 s : Session) (out : List Effect)
      → t ≢ src
      → find t start ≡ some s0
      → s0.hub_id ≡ hub_id
      → SameLinks s0 s
      → All (OnPath s.send_raw s.send_raw2) out
      → All (ToOther start hub_id src) out
  on_paths t s0 s [] ne found own links v = tt
  on_paths t s0 s (e ∷ out) ne found own links v = (
    (
      t,
      s0,
      ne,
      found,
      own,
      subst (λ x. OnPath s0.send_raw x e) links.raw2
          (subst (λ x. OnPath x s.send_raw2 e) links.raw (v.0)),
    ),
    on_paths t s0 s out ne found own links v.1,
  )

  Relays-send_to :
      (now : ℕ) (frame : List ℕ) (t : ℕ) (sessions : Sessions)
      → t ≢ src
      → MemberOf start hub_id t
      → Linked start sessions
      → Relays (send_to env now frame t sessions)
  unfolding send_to
  Relays-send_to now frame t sessions ne (s0, found, own) linked =
      let (s, here, links) = linked t s0 found in
      let sent = Sends-client_send env now frame s in
      rw (send_to, here)
        (
          on_paths t s0 s _ ne found own links (sent.0),
          Linked-trans start sessions _ linked
              (Related-store SameLinks SameLinks-refl t s _ sessions here sent.1),
        )

  Relays-send_each :
      (now : ℕ) (frame : List ℕ) (targets : List ℕ) (sessions : Sessions)
      → All (λ t. t ≢ src) targets
      → All (MemberOf start hub_id) targets
      → Linked start sessions
      → Relays (send_each env now frame targets sessions)
  unfolding send_each
  Relays-send_each now frame [] sessions ne members linked = (tt, linked)
  Relays-send_each now frame (t ∷ targets) sessions ne members linked =
      let one = Relays-send_to now frame t sessions (ne.0) (members.0) linked in
      let rest = Relays-send_each now frame targets _ ne.1 members.1 one.1 in
      (All-append (ToOther start hub_id src) _ _ (one.0) (rest.0), rest.1)

  abbrev pub RelaysFrom : Hub → List Effect × Hub × Sessions → Type 0
  RelaysFrom h (out, h', sessions) =
      All (ToOther start hub_id src) out × (h'.clients ≡ h.clients) × Linked start sessions

  RelaysFrom-forward_frame :
      (now : ℕ) (frame : List ℕ) (h : Hub) (sessions : Sessions)
      → OfClients (MemberOf start hub_id) h.clients
      → Linked start sessions
      → RelaysFrom h (forward_frame env now src frame h sessions)
  unfolding forward_frame
  RelaysFrom-forward_frame now frame h sessions members linked =
      elim (Bool-cases (leb 14 (length frame))) [
        | inr short ↦ rw (forward_frame, short) (tt, refl, linked)
        | inl long ↦
            let counted = Linked-trans start sessions _ linked (count_frame-Linked src sessions) in
            let sent =
              Relays-send_each now frame (forward now src frame h).0 (count_frame src sessions)
                (forward-ne_source now src frame h)
                (forward-All (MemberOf start hub_id) now src frame h members) counted in
            rw (forward_frame, long) (sent.0, forward-clients now src frame h, sent.1)
      ]

  pub RelaysFrom-forward_frames :
      (now : ℕ) (fs : List (Option (List ℕ))) (h : Hub) (sessions : Sessions)
      → OfClients (MemberOf start hub_id) h.clients
      → Linked start sessions
      → RelaysFrom h (forward_frames env now src fs h sessions)
  unfolding forward_frames
  RelaysFrom-forward_frames now [] h sessions members linked = (tt, refl, linked)
  RelaysFrom-forward_frames now (f ∷ fs) h sessions members linked =
      let (out, same, linked1) =
        RelaysFrom-forward_frame now (frame_bytes f) h sessions members linked in
      let (more, same2, linked2) =
        RelaysFrom-forward_frames now fs _ _
          (subst (OfClients (MemberOf start hub_id)) (sym same) members) linked1 in
      (All-append (ToOther start hub_id src) _ _ out more, same2 ∙ same, linked2)
