-- ===== src/Update/Transfer.antt =====
-- The client's loop on the server's replies.
use supervpn.Base.{
  ℕ, suc, Bool, false, ◌&&◌, ◌+◌, ◌≤◌, ◌≡◌, refl, List, [], ◌∷◌, ◌++◌, ltb, ◌==◌, not, ◌∙◌, sym,
  if◌then◌else◌, length, arith, true, Option, none, some, drop, Bool-cases, Option-cases, inl, inr,
  le→ltb-false, length-append, append-nil, append_assoc,
}
use supervpn.Base.Text.{same_bytes}
use supervpn.Proto.Header.{
  Header, InRange, header_size, frame_update_data, marshal, parse_header, parse_header-marshal,
}
use supervpn.Update.Inband.{
  process_body, process_update_frame, Fetched, asset, err_refused, fetch_in_band, update_frame,
  update_chunk, update_eof, update_err, is_allowed, chunk_frames, version_name, unknown_asset,
  waiting, ReadEnd, read_eof, read_failed, File, sent, not_available, handle_update_get,
}

abbrev pub whole : List (List ℕ) → List ℕ
whole [] = []
whole (c ∷ reads) = c ++ whole reads

parsed_body :
    (frame out : List ℕ) (hdr : Header)
    → parse_header frame ≡ some hdr
    → (hdr.frame_type == frame_update_data) ≡ true
    → process_update_frame frame out ≡ process_body (drop header_size frame) out
unfolding process_update_frame
parsed_body frame out hdr e is_data = rw (process_update_frame, e, is_data) refl

-- A frame of the server is taken apart again.
process-update_frame :
    (status : ℕ) (data' out : List ℕ)
    → process_update_frame (update_frame status data') out ≡ process_body (status ∷ data') out
unfolding update_frame marshal
process-update_frame status data' out =
    let hdr : Header = record {
      frame_type = frame_update_data;
      hub_id = 0;
      session_id = 0;
      seq = 0;
    } in
    let range : InRange hdr = record {
      type_lt = omega arith;
      hub_lt = omega arith;
      session_lt = omega arith;
      seq_lt = omega arith;
    } in
    parsed_body (update_frame status data') out hdr
      (parse_header-marshal hdr (status ∷ data') range) refl

-- The chunks that the server has to send: the reads that are not empty.
abbrev pub chunks : List (List ℕ) → List (List ℕ)
chunks [] = []
chunks ([] ∷ reads) = chunks reads
chunks ((b ∷ c) ∷ reads) = (b ∷ c) ∷ chunks reads

-- The chunks up to the first whose sending fails, this one excluded, from call number `call` on.
abbrev pub before_failure : (ℕ → Bool) → ℕ → List (List ℕ) → List (List ℕ)
before_failure sends call [] = []
before_failure sends call (c ∷ cs) =
    let later = before_failure sends (suc call) cs in if sends call then c ∷ later else []

-- Whether the file is read to its end, every chunk is sent, and the end as well.
abbrev pub is_complete : (ℕ → Bool) → ReadEnd → ℕ → List (List ℕ) → Bool
is_complete sends read_eof call [] = sends call
is_complete sends read_failed call [] = false
is_complete sends ended call (c ∷ cs) = sends call && is_complete sends ended (suc call) cs

-- What the client should have in the end: the file where everything went well, and what was sent before
-- that, with a wait for more, where it did not.
abbrev pub from_file : (ℕ → Bool) → File → Fetched
from_file sends file =
    if is_complete sends file.ended 0 (chunks file.reads)
    then asset (whole file.reads)
    else waiting (whole (before_failure sends 0 (chunks file.reads)))

abbrev pub from_error : (ℕ → Bool) → List ℕ → Fetched
from_error sends message = if sends 0 then err_refused message else waiting []

abbrev pub expected :
    (ℕ → Bool) → List ℕ → List (List ℕ) → (List ℕ → Option File) → List ℕ → Fetched
expected sends version assets opened name =
    if same_bytes name version_name
    then (let got = if sends 0 then version else [] in if sends 1 then asset got else waiting got)
    else if not (is_allowed name assets)
    then from_error sends unknown_asset
    else (elim (opened name) [
      | none ↦ from_error sends not_available
      | some file ↦ from_file sends file
    ])

fetch-chunk :
    (c out : List ℕ) (frames : List (List ℕ))
    → length out + length c ≤ 67_108_864
    → fetch_in_band (update_frame update_chunk c ∷ frames) out ≡ fetch_in_band frames (out ++ c)
unfolding fetch_in_band process_body
fetch-chunk c out frames h =
    let small = le→ltb-false 67_108_864 (length out + length c) h in
    rw (fetch_in_band, process-update_frame update_chunk c out, small) refl

fetch-eof :
    (out : List ℕ) (frames : List (List ℕ))
    → fetch_in_band (update_frame update_eof [] ∷ frames) out ≡ asset out
unfolding fetch_in_band process_body
fetch-eof out frames = rw (fetch_in_band, process-update_frame update_eof [] out) refl

fetch-err :
    (message out : List ℕ) (frames : List (List ℕ))
    → fetch_in_band (update_frame update_err message ∷ frames) out ≡ err_refused message
unfolding fetch_in_band process_body
fetch-err message out frames = rw (fetch_in_band, process-update_frame update_err message out) refl

fetch_nothing : (out : List ℕ) → fetch_in_band [] out ≡ waiting out
unfolding fetch_in_band
fetch_nothing out = refl

fetch-sent_eof :
    (sends : ℕ → Bool) (call : ℕ) (out : List ℕ)
    → fetch_in_band (sent sends call (update_frame update_eof [])) out
      ≡ (if sends call then asset out else waiting out)
fetch-sent_eof sends call out = elim (Bool-cases (sends call)) [
  | inl fine ↦ rw fine (fetch-eof out [])
  | inr failed ↦ rw failed (fetch_nothing out)
]

fetch-sent_err :
    (sends : ℕ → Bool) (message : List ℕ)
    → fetch_in_band (sent sends 0 (update_frame update_err message)) [] ≡ from_error sends message
fetch-sent_err sends message = elim (Bool-cases (sends 0)) [
  | inl fine ↦ rw fine (fetch-err message [] [])
  | inr failed ↦ rw failed (fetch_nothing [])
]

-- The result of the loop on a file with `out` received before.
abbrev after : (ℕ → Bool) → ReadEnd → ℕ → List (List ℕ) → List ℕ → Fetched
after sends ended call reads out =
    if is_complete sends ended call (chunks reads)
    then asset (out ++ whole reads)
    else waiting (out ++ whole (before_failure sends call (chunks reads)))

fetch-chunk_frames :
    (sends : ℕ → Bool) (ended : ReadEnd) (call : ℕ) (reads : List (List ℕ)) (out : List ℕ)
    → length out + length (whole reads) ≤ 67_108_864
    → fetch_in_band (chunk_frames sends ended call reads) out ≡ after sends ended call reads out
unfolding chunk_frames
fetch-chunk_frames sends read_eof call [] out h =
    rw (append-nil out) (fetch-sent_eof sends call out)
fetch-chunk_frames sends read_failed call [] out h = rw (append-nil out) (fetch_nothing out)
fetch-chunk_frames sends ended call ([] ∷ reads) out h =
    fetch-chunk_frames sends ended call reads out h
fetch-chunk_frames sends ended call ((b ∷ c) ∷ reads) out h =
    let some_bytes : ltb 0 (length (b ∷ c)) ≡ true = ground arith in
    elim (Bool-cases (sends call)) [
      | inr failed ↦ rw (chunk_frames, some_bytes, failed, append-nil out) (fetch_nothing out)
      | inl fine ↦
          let rest = before_failure sends (suc call) (chunks reads) in
          rw
            (
              chunk_frames,
              some_bytes,
              fine,
              sym (append_assoc out (b ∷ c) (whole reads)),
              sym (append_assoc out (b ∷ c) (whole rest)),
            )
            (fetch-chunk (b ∷ c) out (chunk_frames sends ended (suc call) reads)
                (omega (arith, length-append {0} c (whole reads)))
              ∙ fetch-chunk_frames sends ended (suc call) reads (out ++ (b ∷ c))
                  (omega (arith, length-append {0} c (whole reads), length-append {0} out (b ∷ c))))
    ]

fetch_version :
    (sends : ℕ → Bool) (version : List ℕ)
    → length version ≤ 67_108_864
    → let got = if sends 0 then version else [] in
      fetch_in_band
        (sent sends 0 (update_frame update_chunk version)
          ++ sent sends 1 (update_frame update_eof []))
        []
      ≡ (if sends 1 then asset got else waiting got)
fetch_version sends version small = elim (Bool-cases (sends 0)) [
  | inl fine ↦ rw fine (
      fetch-chunk version [] (sent sends 1 (update_frame update_eof [])) (omega arith)
      ∙ fetch-sent_eof sends 1 version)
  | inr failed ↦ rw failed (fetch-sent_eof sends 1 [])
]

-- A client that asks for a name gets the version for "version", an allowed file whole and in order, however
-- the reads cut it, if it is read up to io.EOF and every reply is sent, and the server's error otherwise,
-- if what is sent has 64 MB at most. Where a read fails in the middle of the file, or a chunk is not sent,
-- it is left waiting with the chunks before that: there is neither an end nor an error. A version, an
-- error or an end that is not sent does not reach it.
pub fetch_in_band-handle_update_get :
    (sends : ℕ → Bool) (version : List ℕ) (assets : List (List ℕ)) (opened : List ℕ → Option File)
    (name : List ℕ)
    → length version ≤ 67_108_864
    → ((file : File) → opened name ≡ some file → length (whole file.reads) ≤ 67_108_864)
    → fetch_in_band (handle_update_get sends version assets opened name) []
      ≡ expected sends version assets opened name
unfolding handle_update_get
fetch_in_band-handle_update_get sends version assets opened name small fits =
    elim (Bool-cases (same_bytes name version_name)) [
      | inl is_version ↦ rw is_version (fetch_version sends version small)
      | inr other ↦ rw other (elim (Bool-cases (is_allowed name assets)) [
        | inr unknown ↦ rw unknown (fetch-sent_err sends unknown_asset)
        | inl allowed ↦ rw allowed (elim (Option-cases (opened name)) [
          | inl closed ↦ rw closed (fetch-sent_err sends not_available)
          | inr (file, e) ↦
              rw e
                (fetch-chunk_frames sends file.ended 0 file.reads [] (omega (arith, fits file e)))
        ])
      ])
    ]
