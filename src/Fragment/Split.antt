-- ===== src/Fragment/Split.antt =====
-- internal/fragment/fragment.go: Split and NeedsSplit.
use supervpn.Base.{
  ℕ, zero, suc, ◌≤◌, ◌<◌, ◌≡◌, refl, ap, ◌∙◌, List, [], ◌∷◌, ◌++◌, ltb, leb, ◌==◌, ◌||◌, ◌&&◌,
  if◌then◌else◌, length, arith, true, false, Bool, inl, inr, Bool-cases, length-append, take, drop,
  length-take, length-drop, take-append-drop, append-nil, subst,
}

-- The pieces from the start of `rest` on. The fuel counts the bytes left: each piece takes one at least.
unfoldable pub pieces_of : ℕ → ℕ → List ℕ → List (List ℕ)
pieces_of zero max_piece rest = []
pieces_of (suc fuel) max_piece rest =
    let more = pieces_of fuel max_piece (drop max_piece rest) in
    if length rest == 0 then [] else take max_piece rest ∷ more

-- `maxPiece` is an int in the source; 0 stands for 0 and all negative ones.
unfoldable pub split : List ℕ → ℕ → List (List ℕ)
split frame max_piece =
    if max_piece == 0 || leb (length frame) max_piece
    then frame ∷ []
    else pieces_of (length frame) max_piece frame

unfoldable pub needs_split : List ℕ → ℕ → Bool
needs_split frame max_piece = ltb 0 max_piece && ltb max_piece (length frame)

abbrev pub concat : List (List ℕ) → List ℕ
concat [] = []
concat (p ∷ ps) = p ++ concat ps

-- A number of pieces, each of the full length but the last, which has a byte at least.
abbrev pub Pieces : ℕ → List (List ℕ) → Type 0
Pieces n [] = Unit {0}
Pieces n (p ∷ []) = (0 < length p) × (length p ≤ n)
Pieces n (p ∷ q ∷ ps) = (length p ≡ n) × Pieces n (q ∷ ps)

-- The pieces in order are the bytes.
concat-pieces_of :
    (fuel n : ℕ) (rest : List ℕ)
    → 0 < n
    → length rest ≤ fuel
    → concat (pieces_of fuel n rest) ≡ rest
unfolding pieces_of
concat-pieces_of zero n [] pos h = refl
concat-pieces_of zero n (b ∷ rest) pos h = absurd (omega arith)
concat-pieces_of (suc fuel) n [] pos h = refl
concat-pieces_of (suc fuel) n (b ∷ rest) pos h = elim (Bool-cases (length (b ∷ rest) == 0)) [
  | inl empty ↦ absurd (ground arith)
  | inr full ↦ rw full (
      ap (◌++◌ (take n (b ∷ rest))) (
        concat-pieces_of fuel n (drop n (b ∷ rest)) pos
          (omega (arith, length-drop {0} n (b ∷ rest))))
      ∙ take-append-drop n (b ∷ rest))
]

Pieces-cons :
    (n : ℕ) (p rest : List ℕ) (ps : List (List ℕ))
    → 0 < length p
    → length p ≤ n
    → (0 < length rest → length p ≡ n)
    → concat ps ≡ rest
    → Pieces n ps
    → Pieces n (p ∷ ps)
Pieces-cons n p rest [] pos le full e h = (pos, le)
Pieces-cons n p rest (q ∷ ps) pos le full e h = (full (nonempty q ps h e), h)
  where
    nonempty :
        (q : List ℕ) (ps : List (List ℕ))
        → Pieces n (q ∷ ps)
        → concat (q ∷ ps) ≡ rest
        → 0 < length rest
    nonempty q [] h e = subst (λ x. 0 < length x) e (omega (arith, length-append {0} q [], h.0))
    nonempty q (q' ∷ ps) h e =
        subst (λ x. 0 < length x) e
          (omega (arith, length-append {0} q (concat (q' ∷ ps)), h.0, pos, le))

Pieces-pieces_of :
    (fuel n : ℕ) (rest : List ℕ) → 0 < n → length rest ≤ fuel → Pieces n (pieces_of fuel n rest)
unfolding pieces_of
Pieces-pieces_of zero n rest pos h = tt
Pieces-pieces_of (suc fuel) n rest pos h = elim (Bool-cases (length rest == 0)) [
  | inl empty ↦ rw empty tt
  | inr full ↦ rw full (
      Pieces-cons n (take n rest) (drop n rest) (pieces_of fuel n (drop n rest))
        (ground (arith, length-take {0} n rest)) (omega (arith, length-take {0} n rest))
        (λ more. omega (arith, length-take {0} n rest, length-drop {0} n rest))
        (concat-pieces_of fuel n (drop n rest) pos (ground (arith, length-drop {0} n rest)))
        (Pieces-pieces_of fuel n (drop n rest) pos (ground (arith, length-drop {0} n rest))))
]

-- Split loses nothing: a frame that does not need splitting is the one piece, and the pieces of another,
-- in order, are its bytes; each has maxPiece bytes, but the last may have fewer, and none is empty.
pub concat-split :
    (frame : List ℕ) (max_piece : ℕ)
    → (concat (split frame max_piece) ≡ frame)
      × (if needs_split frame max_piece
          then Pieces max_piece (split frame max_piece)
          else split frame max_piece ≡ frame ∷ [])
unfolding split needs_split
concat-split frame max_piece = elim (Bool-cases (max_piece == 0 || leb (length frame) max_piece)) [
  | inl whole ↦
      let no_need : (ltb 0 max_piece && ltb max_piece (length frame)) ≡ false = ground arith in
      rw (whole, no_need) (append-nil frame, refl)
  | inr long ↦
      let need : (ltb 0 max_piece && ltb max_piece (length frame)) ≡ true = ground arith in
      let pos : 0 < max_piece = ground arith in
      rw (long, need)
        (
          concat-pieces_of (length frame) max_piece frame pos (omega arith),
          Pieces-pieces_of (length frame) max_piece frame pos (omega arith),
        )
]
