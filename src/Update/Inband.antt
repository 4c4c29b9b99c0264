-- ===== src/Update/Inband.antt =====
-- internal/update/inband.go: processUpdateFrame and the loop of fetchInBand. cmd/supervpn-server/main.go:
-- handleUpdateGet. A file is what the calls of Read return, and whether the last of them gives io.EOF or
-- another error. Whether the n-th call of sendReply succeeds is a parameter; a frame that it does not take
-- does not reach the client.
use supervpn.Base.{
  ℕ, suc, ◌+◌, ◌*◌, ◌^◌, List, [], ◌∷◌, ◌++◌, ltb, ◌==◌, ◌||◌, not, if◌then◌else◌, length, false,
  Bool, Option, none, some, drop,
}
use supervpn.Base.Text.{same_bytes}
use supervpn.Proto.Header.{header_size, frame_update_data, marshal, parse_header}

abbrev pub update_chunk : ℕ
update_chunk = 0

abbrev pub update_eof : ℕ
update_eof = 1

abbrev pub update_err : ℕ
update_err = 2

abbrev pub max_in_band_asset : ℕ
max_in_band_asset = 64 * 2 ^ 20

-- What one frame does to the bytes received so far.
pub data Progress : Type 0 where
  more : List ℕ → Progress
  finished : Progress
  too_large : Progress
  refused : List ℕ → Progress

unfoldable pub process_body : List ℕ → List ℕ → Progress
process_body [] out = more out
process_body (status ∷ data') out =
    if status == update_chunk
    then (if ltb max_in_band_asset (length out + length data')
        then too_large
        else more (out ++ data'))
    else if status == update_eof
    then finished
    else if status == update_err
    then refused data'
    else more out

unfoldable pub process_update_frame : List ℕ → List ℕ → Progress
process_update_frame frame out = elim (parse_header frame) [
  | none ↦ more out
  | some hdr ↦
      if not (hdr.frame_type == frame_update_data)
      then more out
      else process_body (drop header_size frame) out
]

-- `waiting` is a loop that needs another frame.
pub data Fetched : Type 0 where
  asset : List ℕ → Fetched
  err_too_large : Fetched
  err_refused : List ℕ → Fetched
  waiting : List ℕ → Fetched

unfoldable pub fetch_in_band : List (List ℕ) → List ℕ → Fetched
fetch_in_band [] out = waiting out
fetch_in_band (frame ∷ frames) out = elim (process_update_frame frame out) [
  | more out' ↦ fetch_in_band frames out'
  | finished ↦ asset out
  | too_large ↦ err_too_large
  | refused message ↦ err_refused message
]

-- `sendData`
unfoldable pub update_frame : ℕ → List ℕ → List ℕ
update_frame status data' =
    marshal (record { frame_type = frame_update_data; hub_id = 0; session_id = 0; seq = 0 })
    ++ (status ∷ data')

unfoldable pub is_allowed : List ℕ → List (List ℕ) → Bool
is_allowed name [] = false
is_allowed name (a ∷ assets) = same_bytes name a || is_allowed name assets

-- How the reading of a file ends: with io.EOF, or with another error.
pub data ReadEnd : Type 0 where
  read_eof read_failed : ReadEnd

pub record File : Type 0 where
  pub reads : List (List ℕ)
  pub ended : ReadEnd

-- `_ = sendData(...)` as call number `call`.
abbrev pub sent : (ℕ → Bool) → ℕ → List ℕ → List (List ℕ)
sent sends call frame = if sends call then frame ∷ [] else []

-- The loop that reads the file: a frame for each read that is not empty, up to one that is not sent, and
-- the end after io.EOF. Any other error of a read returns without a word.
unfoldable pub chunk_frames : (ℕ → Bool) → ReadEnd → ℕ → List (List ℕ) → List (List ℕ)
chunk_frames sends read_eof call [] = sent sends call (update_frame update_eof [])
chunk_frames sends read_failed call [] = []
chunk_frames sends ended call (c ∷ reads) =
    let skipped = chunk_frames sends ended call reads in
    let rest = chunk_frames sends ended (suc call) reads in
    if ltb 0 (length c)
    then (if sends call then update_frame update_chunk c ∷ rest else [])
    else skipped

-- "version", "unknown asset" and "asset not available", as UTF-8.
abbrev pub version_name : List ℕ
version_name = 118 ∷ 101 ∷ 114 ∷ 115 ∷ 105 ∷ 111 ∷ 110 ∷ []

abbrev pub unknown_asset : List ℕ
unknown_asset = 117 ∷ 110 ∷ 107 ∷ 110 ∷ 111 ∷ 119 ∷ 110 ∷ 32 ∷ 97 ∷ 115 ∷ 115 ∷ 101 ∷ 116 ∷ []

abbrev pub not_available : List ℕ
not_available =
    97 ∷ 115 ∷ 115 ∷ 101 ∷ 116 ∷ 32 ∷ 110 ∷ 111 ∷ 116 ∷ 32 ∷ 97 ∷ 118 ∷ 97 ∷ 105 ∷ 108 ∷ 97 ∷ 98
    ∷ 108 ∷ 101 ∷ []

-- The replies to a request for `name` that are sent; `opened` is `none` where os.Open fails.
unfoldable pub handle_update_get :
    (ℕ → Bool) → List ℕ → List (List ℕ) → (List ℕ → Option File) → List ℕ → List (List ℕ)
handle_update_get sends version assets opened name =
    if same_bytes name version_name
    then sent sends 0 (update_frame update_chunk version)
      ++ sent sends 1 (update_frame update_eof [])
    else if not (is_allowed name assets)
    then sent sends 0 (update_frame update_err unknown_asset)
    else (elim (opened name) [
      | none ↦ sent sends 0 (update_frame update_err not_available)
      | some file ↦ chunk_frames sends file.ended 0 file.reads
    ])
