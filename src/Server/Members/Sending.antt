-- ===== src/Server/Members/Sending.antt =====
-- sendFECData, sendFECRepair and sendFrag write on the session's own paths only, and leave these and its
-- hub as they are.
use supervpn.Base.{
  ℕ, suc, ◌≡◌, refl, List, [], ◌∷◌, ◌++◌, ◌&&◌, Option, none, some, All, All-append, ◌⊎◌, inl, inr,
  ◌∙◌, subst, if_both,
}
use supervpn.Fec.Pipe.{Wire, data_packet, repair_packet}
use supervpn.Fragment.Split.{split, needs_split}
use supervpn.Proto.Header.{max_frame_plaintext}
use supervpn.Server.State.{Outside, Session, Effect, sends, closes, cancels}
use supervpn.Server.Outgoing.{
  on_both, send_sealed, send_fec_data, send_fec_repair, send_pieces, send_frag, send_wire,
  send_wires, pipe_send, client_send,
}

-- A packet on one of two paths.
abbrev pub OnPath : ℕ → Option ℕ → Effect → Type 0
OnPath raw raw2 (sends path pkt) = (path ≡ raw) ⊎ (raw2 ≡ some path)
OnPath raw raw2 (closes path) = ⊥
OnPath raw raw2 (cancels id) = ⊥

-- The same hub and paths.
pub record SameLinks (s s' : Session) : Type 0 where
  pub hub : s'.hub_id ≡ s.hub_id
  pub raw : s'.send_raw ≡ s.send_raw
  pub raw2 : s'.send_raw2 ≡ s.send_raw2

pub SameLinks-refl : (s : Session) → SameLinks s s
SameLinks-refl s = record { hub = refl; raw = refl; raw2 = refl }

pub SameLinks-trans : (a b c : Session) → SameLinks a b → SameLinks b c → SameLinks a c
SameLinks-trans a b c f g = record {
  hub = g.hub ∙ f.hub;
  raw = g.raw ∙ f.raw;
  raw2 = g.raw2 ∙ f.raw2;
}

-- Packets on the session's paths, which stay as they are.
abbrev pub Sends : Session → List Effect × Session → Type 0
Sends s (out, s') = All (OnPath s.send_raw s.send_raw2) out × SameLinks s s'

on_both-OnPath : (s : Session) (pkt : List ℕ) → All (OnPath s.send_raw s.send_raw2) (on_both s pkt)
on_both-OnPath s pkt = (inl refl, second s.send_raw2)
  where
    second :
        (raw2 : Option ℕ)
        → All (OnPath s.send_raw raw2) (elim raw2 [ none ↦ [] | some path ↦ sends path pkt ∷ [] ])
    second none = tt
    second (some path) = (inr refl, tt)

Sends-then :
    (s s1 s2 : Session) (out more : List Effect)
    → Sends s (out, s1)
    → Sends s1 (more, s2)
    → Sends s (out ++ more, s2)
Sends-then s s1 s2 out more (a, f) (b, g) = (
  All-append (OnPath s.send_raw s.send_raw2) out more a (
      subst (λ x. All (OnPath s.send_raw x) more) f.raw2
        (subst (λ x. All (OnPath x s1.send_raw2) more) f.raw b)),
  SameLinks-trans s s1 s2 f g,
)

module _ (env : Outside) where
  Sends-send_sealed :
      (frame_type seq : ℕ) (frame : List ℕ) (s : Session)
      → Sends s (send_sealed env frame_type seq frame s)
  unfolding send_sealed
  Sends-send_sealed frame_type seq frame s =
      (on_both-OnPath s _, record { hub = refl; raw = refl; raw2 = refl })

  Sends-send_wire : (w : Wire) (s : Session) → Sends s (send_wire env w s)
  unfolding send_wire send_fec_data send_fec_repair
  Sends-send_wire (data_packet b i frame) s =
      let (out, links) = Sends-send_sealed _ _ frame s in
      (out, record { hub = links.hub; raw = links.raw; raw2 = links.raw2 })
  Sends-send_wire (repair_packet b i bytes) s = Sends-send_sealed _ _ bytes s

  Sends-send_wires : (wires : List Wire) (s : Session) → Sends s (send_wires env wires s)
  unfolding send_wires
  Sends-send_wires [] s = (tt, SameLinks-refl s)
  Sends-send_wires (w ∷ wires) s =
      let s1 = (send_wire env w s).1 in
      Sends-then s s1 _ _ _ (Sends-send_wire w s) (Sends-send_wires wires s1)

  Sends-send_pieces :
      (id count i : ℕ) (pieces : List (List ℕ)) (s : Session)
      → Sends s (send_pieces env id count i pieces s)
  unfolding send_pieces
  Sends-send_pieces id count i [] s = (tt, SameLinks-refl s)
  Sends-send_pieces id count i (pc ∷ pieces) s =
      let sent = Sends-send_sealed _ _ pc s in
      Sends-then s _ _ _ _
        (sent.0, record { hub = sent.1.hub; raw = sent.1.raw; raw2 = sent.1.raw2 })
        (Sends-send_pieces id count (suc i) pieces _)

  -- Send of a hub's client writes on the paths of its session only.
  pub Sends-client_send :
      (now : ℕ) (frame : List ℕ) (s : Session) → Sends s (client_send env now frame s)
  unfolding client_send send_frag pipe_send
  Sends-client_send now frame s =
      if_both (λ (r : List Effect × Session). Sends s r)
        (s.frag_enabled && needs_split frame max_frame_plaintext) _ _
        (Sends-then s _ _ [] _ (tt, record { hub = refl; raw = refl; raw2 = refl })
          (Sends-send_pieces _ _ 0 (split frame max_frame_plaintext) _))
        (Sends-then s _ _ [] _ (tt, record { hub = refl; raw = refl; raw2 = refl })
          (Sends-send_wires _ _))
