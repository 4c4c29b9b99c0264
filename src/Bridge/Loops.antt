-- ===== src/Bridge/Loops.antt =====
-- internal/bridge/bridge.go: RunUpstream and RunDownstream. The frames are those that the adapter gives
-- before an error, and those that the channel gives before it is closed. Whether sending or writing a
-- frame succeeds is a parameter, and the context is not cancelled.
use supervpn.Base.{
  ℕ, ◌+◌, ◌%◌, ◌^◌, ◌<◌, ◌≡◌, refl, List, [], ◌∷◌, if◌then◌else◌, Bool, true, All, IsByte, Go, ok,
  ◌>>=◌, inl, inr, Bool-cases, ◌&&◌,
}
use supervpn.Bridge.Mss.{Stuck, clamp_tcp_mss}
use supervpn.Bridge.Mss.Position.{Clamped}
use supervpn.Bridge.Mss.Clamp.{clamp_tcp_mss-Clamped}

-- The error that ends RunUpstream.
pub data UpstreamEnd : Type 0 where
  read_failed send_failed : UpstreamEnd

-- The frames that were offered to `send`, and the end.
unfoldable pub run_upstream :
    (List ℕ → Bool) → ℕ → List (List ℕ) → Go Stuck (List (List ℕ) × UpstreamEnd)
run_upstream sends mss_clamp [] = ok ([], read_failed)
run_upstream sends mss_clamp (frame ∷ frames) = do
  clamped ← clamp_tcp_mss frame mss_clamp
  let rest = run_upstream sends mss_clamp frames
  (if sends clamped
      then (rest >>= λ r. ok (clamped ∷ r.0, r.1))
      else ok (clamped ∷ [], send_failed))

-- The frames that were offered to WriteFrame, and how many of them it refused, from a count on. The end
-- is io.EOF.
unfoldable pub run_downstream :
    (List ℕ → Bool) → ℕ → List (List ℕ) → ℕ → Go Stuck (List (List ℕ) × ℕ)
run_downstream writes mss_clamp [] dropped = ok ([], dropped)
run_downstream writes mss_clamp (frame ∷ frames) dropped = do
  clamped ← clamp_tcp_mss frame mss_clamp
  let next = if writes clamped then dropped else (dropped + 1) % 2 ^ 64
  (offered, last) ← run_downstream writes mss_clamp frames next
  ok (clamped ∷ offered, last)

-- Each frame of the second list is what ClampTCPMSS returns for the one of the first.
abbrev pub EachClamped : ℕ → List (List ℕ) → List (List ℕ) → Type 0
EachClamped mss_clamp [] [] = Unit
EachClamped mss_clamp [] (c ∷ cs) = ⊥
EachClamped mss_clamp (f ∷ fs) [] = ⊥
EachClamped mss_clamp (f ∷ fs) (c ∷ cs) =
    (clamp_tcp_mss f mss_clamp ≡ ok c) × Clamped f mss_clamp (ok c) × EachClamped mss_clamp fs cs

-- The list up to the first frame that is refused, this one included.
abbrev pub up_to_refused : (List ℕ → Bool) → List (List ℕ) → List (List ℕ)
up_to_refused sends [] = []
up_to_refused sends (c ∷ cs) =
    let rest = up_to_refused sends cs in if sends c then c ∷ rest else c ∷ []

abbrev pub all_sent : (List ℕ → Bool) → List (List ℕ) → Bool
all_sent sends [] = true
all_sent sends (c ∷ cs) = sends c && all_sent sends cs

-- The count of refused frames, which wraps around at 2^64.
abbrev pub refused_from : (List ℕ → Bool) → ℕ → List (List ℕ) → ℕ
refused_from writes dropped [] = dropped
refused_from writes dropped (c ∷ cs) =
    refused_from writes (if writes c then dropped else (dropped + 1) % 2 ^ 64) cs

clamps :
    (frame : List ℕ) (mss_clamp : ℕ)
    → All IsByte frame
    → mss_clamp < 2 ^ 16
    → (c : List ℕ) × (clamp_tcp_mss frame mss_clamp ≡ ok c) × Clamped frame mss_clamp (ok c)
clamps frame mss_clamp bytes small = elim (clamp_tcp_mss-Clamped frame mss_clamp bytes small) [
  | inl (same, none_above) ↦ (frame, same, inl (refl, none_above))
  | inr (mss, out, found, e, written) ↦ (out, e, inr (mss, out, found, refl, written))
]

module _ (test : List ℕ → Bool) (mss_clamp : ℕ) (small : mss_clamp < 2 ^ 16) where
  -- RunUpstream offers what ClampTCPMSS returns for each frame, in order, stops at the first that is
  -- refused, and with a read error exactly if none is. It never panics.
  pub run_upstream-EachClamped :
      (frames : List (List ℕ))
      → All (All IsByte) frames
      → (clamped : List (List ℕ)) × EachClamped mss_clamp frames clamped
        × (run_upstream test mss_clamp frames
            ≡ ok (
              up_to_refused test clamped,
              if all_sent test clamped then read_failed else send_failed,
            ))
  unfolding run_upstream
  run_upstream-EachClamped [] v = ([], tt, refl)
  run_upstream-EachClamped (frame ∷ frames) v =
      let (c, e, fine) = clamps frame mss_clamp (v.0) small in
      let (cs, each, ran) = run_upstream-EachClamped frames v.1 in
      (
        c ∷ cs,
        (e, fine, each),
        elim (Bool-cases (test c)) [
          | inl sent ↦ rw (run_upstream, e, sent, ran) refl
          | inr refused ↦ rw (run_upstream, e, refused) refl
        ],
      )

  -- Whatever the adapter refuses, RunDownstream offers it what ClampTCPMSS returns for every frame, in
  -- order, counts the refused ones modulo 2^64, and ends only with the frames. It never panics.
  pub run_downstream-EachClamped :
      (frames : List (List ℕ)) (dropped : ℕ)
      → All (All IsByte) frames
      → (clamped : List (List ℕ)) × EachClamped mss_clamp frames clamped
        × (run_downstream test mss_clamp frames dropped
            ≡ ok (clamped, refused_from test dropped clamped))
  unfolding run_downstream
  run_downstream-EachClamped [] dropped v = ([], tt, refl)
  run_downstream-EachClamped (frame ∷ frames) dropped v =
      let (c, e, fine) = clamps frame mss_clamp (v.0) small in
      let next = if test c then dropped else (dropped + 1) % 2 ^ 64 in
      let (cs, each, ran) = run_downstream-EachClamped frames next v.1 in
      (c ∷ cs, (e, fine, each), rw (run_downstream, e, ran) refl)
