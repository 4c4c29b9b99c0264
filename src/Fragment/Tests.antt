-- ===== src/Fragment/Tests.antt =====
-- Runs of the fragmentation, and its theorems at concrete inputs.
use supervpn.Base.{ℕ, ◌<◌, ◌≡◌, ◌≢◌, refl, List, [], ◌∷◌, length, arith, All, ◌⊎◌}
use supervpn.Base.Assoc.{find, store, keep}
use supervpn.Fragment.Split.{split, pieces_of}
use supervpn.Fragment.Reassembler.{add, put_piece, partial_for, join, evict_locked}
use supervpn.Fragment.Reassembler.Collect.{add_all, add_all-split}

abbrev frame : List ℕ
frame = 1 ∷ 2 ∷ 3 ∷ 4 ∷ 5 ∷ []

split_run : split frame 2 ≡ (1 ∷ 2 ∷ []) ∷ (3 ∷ 4 ∷ []) ∷ (5 ∷ []) ∷ []
unfolding split pieces_of
split_run = refl

-- The last piece first, and the second one twice.
abbrev order : List (ℕ × ℕ)
order = (5, 2) ∷ (6, 1) ∷ (7, 1) ∷ (8, 0) ∷ (9, 2) ∷ []

add_all_run : (add_all 7 (split frame 2) order []).0 ≡ frame ∷ []
unfolding add_all split pieces_of add find put_piece partial_for store evict_locked keep join
add_all_run = refl

add_all-split_example :
    let out = (add_all 7 (split frame 2) order []).0 in
    (out ≡ frame ∷ [])
    ⊎ ((out ≡ [])
        × (missing : ℕ) × (missing < length (split frame 2))
        × All (λ e. e.1 ≢ missing) order)
unfolding split pieces_of find
add_all-split_example =
    add_all-split frame 2 7 order [] (omega arith)
      (omega arith, (omega arith, (omega arith, (omega arith, (omega arith, tt))))) refl
