-- ===== src/Fragment/Reassembler/Slots.antt =====
-- internal/fragment/fragment.go: what a piece does to the partial frame that it belongs to.
use supervpn.Base.{
  ℕ, zero, suc, ◌+◌, ◌≤◌, ◌<◌, ◌≡◌, ◌≢◌, refl, ap, ap₂, ◌∙◌, sym, List, [], ◌∷◌, ◌++◌, ltb, ◌==◌,
  length, arith, true, false, Option, none, some, set, get_or, replicate, Bool-cases, Option-cases,
  inl, inr, ◌⊎◌, subst, length-set, length-replicate, get_or-set_self, get_or-set_ne,
  get_or-replicate, ==→eq,
}
use supervpn.Fragment.Split.{concat}
use supervpn.Fragment.Reassembler.{Partial, fresh, join, put_piece}

abbrev pub filled : List (Option (List ℕ)) → ℕ
filled [] = 0
filled (none ∷ slots) = filled slots
filled (some p ∷ slots) = suc (filled slots)

filled-set :
    (slots : List (Option (List ℕ))) (i : ℕ) (piece : List ℕ)
    → i < length slots
    → get_or slots i none ≡ none
    → filled (set slots i (some piece)) ≡ suc (filled slots)
filled-set [] i piece h e = absurd (omega arith)
filled-set (none ∷ slots) zero piece h e = refl
filled-set (some p ∷ slots) zero piece h e = cc
filled-set (none ∷ slots) (suc i) piece h e = filled-set slots i piece (omega arith) e
filled-set (some p ∷ slots) (suc i) piece h e = ap suc (filled-set slots i piece (omega arith) e)

filled-le : (slots : List (Option (List ℕ))) → filled slots ≤ length slots
filled-le [] = omega arith
filled-le (none ∷ slots) = omega (arith, filled-le slots)
filled-le (some p ∷ slots) = omega (arith, filled-le slots)

filled-replicate : (n : ℕ) → filled (replicate n none) ≡ 0
filled-replicate zero = refl
filled-replicate (suc n) = filled-replicate n

-- Each slot is empty or holds its piece.
abbrev Matches : List (Option (List ℕ)) → List (List ℕ) → Type 0
Matches slots ps =
    (i : ℕ) → get_or slots i none ≢ none → get_or slots i none ≡ some (get_or ps i [])

-- A full set of slots joins to the frame.
join-full :
    (slots : List (Option (List ℕ))) (ps : List (List ℕ))
    → length slots ≡ length ps
    → filled slots ≡ length slots
    → Matches slots ps
    → join slots ≡ concat ps
unfolding join
join-full [] [] l f m = refl
join-full [] (p ∷ ps) l f m = absurd (omega arith)
join-full (s ∷ slots) [] l f m = absurd (omega arith)
join-full (none ∷ slots) (p ∷ ps) l f m = absurd (omega (arith, filled-le slots, f))
join-full (some q ∷ slots) (p ∷ ps) l f m =
    ap₂ ◌++◌ (inside (m 0 (λ e. cc)))
      (join-full slots ps (omega arith) (omega (arith, f)) (λ i. m (suc i)))
  where
    inside : some q ≡ some p → q ≡ p
    inside e = cc

-- A partial frame of the pieces ps that is not complete.
pub record IsPartial (ps : List (List ℕ)) (p : Partial) : Type 0 where
  pub size : p.count ≡ length ps
  pub slots_size : length p.pieces ≡ length ps
  pub counted : p.got ≡ filled p.pieces
  pub incomplete : p.got < p.count
  pub matching : Matches p.pieces ps
  pub open_ : p.done ≡ false

pub fresh-IsPartial :
    (ps : List (List ℕ)) (now : ℕ) → 0 < length ps → IsPartial ps (fresh (length ps) now)
fresh-IsPartial ps now pos = record {
  size = refl;
  slots_size = length-replicate (length ps) none;
  counted = sym (filled-replicate (length ps));
  incomplete = pos;
  matching = λ i ne. absurd (ne (get_or-replicate (length ps) i none));
  open_ = refl;
}

pub empty_slot :
    (slots : List (Option (List ℕ)))
    → filled slots < length slots
    → (i : ℕ) × (i < length slots) × (get_or slots i none ≡ none)
empty_slot [] h = absurd (omega arith)
empty_slot (none ∷ slots) h = (0, omega arith, refl)
empty_slot (some p ∷ slots) h =
    let (i, lt, e) = empty_slot slots (omega arith) in (suc i, omega arith, e)

-- A piece that does not complete the frame.
pub record Waits (ps : List (List ℕ)) (idx : ℕ) (p : Partial) (result : Option (List ℕ) × Partial)
    : Type 0 where
  pub nothing : result.0 ≡ none
  pub still : IsPartial ps result.1
  pub arrived : get_or result.1.pieces idx none ≢ none
  pub kept : (i : ℕ) → get_or p.pieces i none ≢ none → get_or result.1.pieces i none ≢ none

-- The piece that completes it.
pub record Completes (ps : List (List ℕ)) (result : Option (List ℕ) × Partial) : Type 0 where
  pub frame : result.0 ≡ some (concat ps)
  pub closed : result.1.done ≡ true

set-Matches :
    (slots : List (Option (List ℕ))) (ps : List (List ℕ)) (idx : ℕ)
    → idx < length slots
    → Matches slots ps
    → Matches (set slots idx (some (get_or ps idx []))) ps
set-Matches slots ps idx lt m i ne = elim (Bool-cases (idx == i)) [
  | inl same ↦
      ap (λ j. get_or (set slots idx (some (get_or ps idx []))) j none) (sym (==→eq idx i same))
      ∙ get_or-set_self slots idx (some (get_or ps idx [])) none lt
      ∙ ap (λ j. some (get_or ps j [])) (==→eq idx i same)
  | inr other ↦
      let e = get_or-set_ne slots idx i (some (get_or ps idx [])) none (ground arith) in
      e ∙ m i (λ n. ne (e ∙ n))
]

set_keeps :
    (slots : List (Option (List ℕ))) (idx i : ℕ) (s : Option (List ℕ))
    → get_or slots idx none ≡ none
    → get_or slots i none ≢ none
    → get_or (set slots idx s) i none ≢ none
set_keeps slots idx i s e ne n = ne (
    sym (
      get_or-set_ne slots idx i s none
        (λ same. ne (subst (λ j. get_or slots j none ≡ none) same e)))
    ∙ n)

pub put_piece-cases :
    (ps : List (List ℕ)) (idx : ℕ) (p : Partial)
    → idx < length ps
    → IsPartial ps p
    → Waits ps idx p (put_piece idx (get_or ps idx []) p)
      ⊎ Completes ps (put_piece idx (get_or ps idx []) p)
unfolding put_piece
put_piece-cases ps idx p lt v = elim (Option-cases (get_or p.pieces idx none)) [
  | inr (q, e) ↦
      rw (put_piece, e)
        (inl (record {
          nothing = refl;
          still = v;
          arrived = λ n. let f = sym e ∙ n in cc;
          kept = λ i ne. ne;
        }))
  | inl e ↦
      let slots : List (Option (List ℕ)) = set p.pieces idx (some (get_or ps idx [])) in
      let f = filled-set p.pieces idx (get_or ps idx []) (omega (arith, v.slots_size)) e in
      let len = length-set p.pieces idx (some (get_or ps idx [])) in
      let m = set-Matches p.pieces ps idx (omega (arith, v.slots_size)) v.matching in
      let self =
        get_or-set_self p.pieces idx (some (get_or ps idx [])) none (omega (arith, v.slots_size)) in
      rw (put_piece, e)
        (elim (Bool-cases (ltb (p.got + 1) p.count)) [
          | inl more ↦ rw more (
              inl (record {
                nothing = refl;
                still = record {
                  size = v.size;
                  slots_size = len ∙ v.slots_size;
                  counted = omega (arith, f, v.counted);
                  incomplete = ground arith;
                  matching = m;
                  open_ = v.open_;
                };
                arrived = λ n. let g = sym self ∙ n in cc;
                kept = λ i ne. set_keeps p.pieces idx i (some (get_or ps idx [])) e ne;
              }))
          | inr last ↦ rw last (
              inr (record {
                frame = ap some (
                    join-full slots ps (len ∙ v.slots_size)
                      (ground
                        (arith, f, v.counted, last, v.size, v.slots_size, len, filled-le slots))
                      m);
                closed = refl;
              }))
        ])
]
