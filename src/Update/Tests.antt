-- ===== src/Update/Tests.antt =====
-- Runs of the in-band update, and its theorem at a concrete input.
use supervpn.Base.{
  ℕ, ◌≤◌, ◌≡◌, refl, List, [], ◌∷◌, length, arith, Option, some, none, subst, Bool, ltb, true,
}
use supervpn.Base.Text.{same_bytes}
use supervpn.Update.Inband.{
  File, read_eof, read_failed, asset, waiting, fetch_in_band, process_update_frame, process_body,
  handle_update_get, update_frame, chunk_frames, is_allowed,
}
use supervpn.Update.Transfer.{whole, expected, fetch_in_band-handle_update_get}
use supervpn.Proto.Header.{marshal, parse_header}

abbrev files : List ℕ → Option File
files name = some (record { reads = (1 ∷ 2 ∷ []) ∷ [] ∷ (3 ∷ []) ∷ []; ended = read_eof })

abbrev bad_disk : List ℕ → Option File
bad_disk name = some (record { reads = (1 ∷ 2 ∷ []) ∷ []; ended = read_failed })

abbrev all_sent : ℕ → Bool
all_sent call = true

-- The second chunk is lost.
abbrev one_sent : ℕ → Bool
one_sent call = ltb call 1

abbrev known : List (List ℕ)
known = (97 ∷ []) ∷ []

fetch_run :
    fetch_in_band (handle_update_get all_sent [] known files (97 ∷ [])) [] ≡ asset (1 ∷ 2 ∷ 3 ∷ [])
unfolding fetch_in_band process_update_frame process_body handle_update_get update_frame
    chunk_frames same_bytes is_allowed marshal parse_header
fetch_run = refl

fetch_failed_run :
    fetch_in_band (handle_update_get all_sent [] known bad_disk (97 ∷ [])) [] ≡ waiting (1 ∷ 2 ∷ [])
unfolding fetch_in_band process_update_frame process_body handle_update_get update_frame
    chunk_frames same_bytes is_allowed marshal parse_header
fetch_failed_run = refl

files_fit : (file : File) → files (97 ∷ []) ≡ some file → length (whole file.reads) ≤ 67_108_864
files_fit file e = subst (λ o. length (whole (known_reads o)) ≤ 67_108_864) e (omega arith)
  where
    known_reads : Option File → List (List ℕ)
    known_reads none = []
    known_reads (some f) = f.reads

fetch_in_band-handle_update_get_example :
    fetch_in_band (handle_update_get one_sent [] known files (97 ∷ [])) []
    ≡ expected one_sent [] known files (97 ∷ [])
fetch_in_band-handle_update_get_example =
    fetch_in_band-handle_update_get one_sent [] known files (97 ∷ []) (omega arith) files_fit
