-- ===== src/Fragment/Reassembler/Collect.antt =====
-- internal/fragment/fragment.go: the pieces of one frame, in any order.
use supervpn.Base.{
  ℕ, ◌≤◌, ◌<◌, ◌≡◌, ◌≢◌, refl, ap, ◌∙◌, sym, List, [], ◌∷◌, leb, ◌==◌, ◌||◌, length, arith, true,
  false, Option, none, some, get_or, replicate, Bool-cases, Option-cases, inl, inr, ◌⊎◌, All,
}
use supervpn.Base.Assoc.{find, store, find-store_self}
use supervpn.Fragment.Split.{concat, split, concat-split}
use supervpn.Fragment.Reassembler.{Partial, Pending, put_piece, partial_for, is_delivered, add}
use supervpn.Fragment.Reassembler.Slots.{
  filled, empty_slot, IsPartial, Waits, put_piece-cases, fresh-IsPartial,
}

-- The frames that Add returns for pieces of the frame ps under one id, each given as its time and its index.
unfoldable pub add_all : ℕ → List (List ℕ) → List (ℕ × ℕ) → Pending → List (List ℕ) × Pending
add_all frag_id ps [] pending = ([], pending)
add_all frag_id ps ((now, idx) ∷ events) pending =
    let (out, next) = add now frag_id idx (length ps) (get_or ps idx []) pending in
    let (rest, last) = add_all frag_id ps events next in
    (elim out [ none ↦ rest | some frame ↦ frame ∷ rest ], last)

abbrev pub InRange : List (List ℕ) → List (ℕ × ℕ) → Type 0
InRange ps events = All (λ e. e.1 < length ps) events

add-delivered :
    (now frag_id idx count : ℕ) (piece : List ℕ) (pending : Pending)
    → 2 ≤ count
    → is_delivered (find frag_id pending) ≡ true
    → add now frag_id idx count piece pending ≡ (none, pending)
unfolding add
add-delivered now frag_id idx count piece pending two d =
    elim (Bool-cases (count == 0 || leb count idx)) [
      | inl bad ↦ rw bad refl
      | inr good ↦ let two' : (count == 1) ≡ false = ground arith in rw (good, two', d) refl
    ]

add-put :
    (now frag_id idx count : ℕ) (piece : List ℕ) (pending : Pending)
    → 2 ≤ count
    → idx < count
    → is_delivered (find frag_id pending) ≡ false
    → add now frag_id idx count piece pending ≡ (
      (put_piece idx piece (partial_for now frag_id count pending).0).0,
      store frag_id
          (put_piece idx piece (partial_for now frag_id count pending).0).1
          (partial_for now frag_id count pending).1,
    )
unfolding add
add-put now frag_id idx count piece pending two lt d =
    let good : (count == 0 || leb count idx) ≡ false = ground arith in
    let two' : (count == 1) ≡ false = ground arith in rw (good, two', d) refl

abbrev go_on : ℕ → List (List ℕ) → List (ℕ × ℕ) → Option (List ℕ) × Pending → List (List ℕ)
go_on frag_id ps events (none, next) = (add_all frag_id ps events next).0
go_on frag_id ps events (some frame, next) = frame ∷ (add_all frag_id ps events next).0

add_all-go_on :
    (now idx frag_id : ℕ) (ps : List (List ℕ)) (events : List (ℕ × ℕ)) (pending : Pending)
    → (add_all frag_id ps ((now, idx) ∷ events) pending).0
      ≡ go_on frag_id ps events (add now frag_id idx (length ps) (get_or ps idx []) pending)
unfolding add_all
add_all-go_on now idx frag_id ps events pending =
    by_result (add now frag_id idx (length ps) (get_or ps idx []) pending)
  where
    by_result :
        (x : Option (List ℕ) × Pending)
        → (elim x.0 [
          | none ↦ (add_all frag_id ps events x.1).0
          | some frame ↦ frame ∷ (add_all frag_id ps events x.1).0
        ])
          ≡ go_on frag_id ps events x
    by_result (none, next) = refl
    by_result (some frame, next) = refl

add_all-delivered :
    (frag_id : ℕ) (ps : List (List ℕ)) (events : List (ℕ × ℕ)) (pending : Pending)
    → 2 ≤ length ps
    → is_delivered (find frag_id pending) ≡ true
    → (add_all frag_id ps events pending).0 ≡ []
unfolding add_all
add_all-delivered frag_id ps [] pending two d = refl
add_all-delivered frag_id ps ((now, idx) ∷ events) pending two d =
    add_all-go_on now idx frag_id ps events pending
    ∙ ap (go_on frag_id ps events)
        (add-delivered now frag_id idx (length ps) (get_or ps idx []) pending two d)
    ∙ add_all-delivered frag_id ps events pending two d

-- The pieces that arrive next go into a partial frame with these slots.
record Ready (frag_id : ℕ) (ps : List (List ℕ)) (slots : List (Option (List ℕ))) (pending : Pending)
    : Type 0 where
  pub undelivered : is_delivered (find frag_id pending) ≡ false
  pub partial : (now : ℕ) → IsPartial ps (partial_for now frag_id (length ps) pending).0
  pub same : (now : ℕ) → (partial_for now frag_id (length ps) pending).0.pieces ≡ slots

stored-Ready :
    (frag_id : ℕ) (ps : List (List ℕ)) (q : Partial) (rest : Pending)
    → IsPartial ps q
    → Ready frag_id ps q.pieces (store frag_id q rest)
unfolding partial_for
stored-Ready frag_id ps q rest v =
    let f = find-store_self frag_id q rest in
    let same : (q.count == length ps) ≡ true = ground (arith, v.size) in
    record {
      undelivered = rw f v.open_;
      partial = λ now. rw (partial_for, f, same) v;
      same = λ now. rw (partial_for, f, same) refl;
    }

absent-Ready :
    (frag_id : ℕ) (ps : List (List ℕ)) (pending : Pending)
    → 0 < length ps
    → find frag_id pending ≡ none
    → Ready frag_id ps (replicate (length ps) none) pending
unfolding partial_for
absent-Ready frag_id ps pending pos f = record {
  undelivered = rw f refl;
  partial = λ now. rw (partial_for, f) (fresh-IsPartial ps now pos);
  same = λ now. rw (partial_for, f) refl;
}

-- A piece is missing: its slot is empty, and it is not among the pieces to come.
pub record Lacks (ps : List (List ℕ)) (events : List (ℕ × ℕ)) (slots : List (Option (List ℕ)))
    : Type 0 where
  pub missing : ℕ
  pub in_frame : missing < length ps
  pub empty : get_or slots missing none ≡ none
  pub never : All (λ e. e.1 ≢ missing) events

abbrev pub Collected :
    List (List ℕ) → List (ℕ × ℕ) → List (Option (List ℕ)) → List (List ℕ) → Type 0
Collected ps events slots out = (out ≡ concat ps ∷ []) ⊎ ((out ≡ []) × Lacks ps events slots)

waiting :
    (frag_id : ℕ) (ps : List (List ℕ)) (slots : List (Option (List ℕ))) (idx now : ℕ)
    (events : List (ℕ × ℕ)) (p : Partial) (result : Option (List ℕ) × Partial)
    (out out' : List (List ℕ))
    → p.pieces ≡ slots
    → Waits ps idx p result
    → out ≡ out'
    → Collected ps events result.1.pieces out'
    → Collected ps ((now, idx) ∷ events) slots out
waiting frag_id ps slots idx now events p result out out' same w e (inl d) = inl (e ∙ d)
waiting frag_id ps slots idx now events p result out out' same w e (inr (n, l)) = inr (
  e ∙ n,
  record {
    missing = l.missing;
    in_frame = l.in_frame;
    empty = elim (Option-cases (get_or slots l.missing none)) [
      | inl e ↦ e
      | inr (q, e) ↦ absurd (
          w.kept l.missing
            (λ n. let f = sym e ∙ ap (λ x. get_or x l.missing none) (sym same) ∙ n in cc) l.empty)
    ];
    never = (
      (λ same_idx. w.arrived (ap (λ i. get_or result.1.pieces i none) same_idx ∙ l.empty)),
      l.never,
    );
  },
)

add_all-Collected :
    (events : List (ℕ × ℕ)) (frag_id : ℕ) (ps : List (List ℕ)) (slots : List (Option (List ℕ)))
    (pending : Pending)
    → 2 ≤ length ps
    → InRange ps events
    → Ready frag_id ps slots pending
    → Collected ps events slots (add_all frag_id ps events pending).0
unfolding add_all
add_all-Collected [] frag_id ps slots pending two h v =
    let p = v.partial 0 in
    let e = v.same 0 in
    let (i, lt, empty) =
      empty_slot slots
        (omega (arith, p.counted, p.incomplete, p.size, p.slots_size, ap filled e, ap length e)) in
    inr (
      refl,
      record {
        missing = i;
        in_frame = omega (arith, p.slots_size, ap length e);
        empty = empty;
        never = tt;
      },
    )
add_all-Collected ((now, idx) ∷ events) frag_id ps slots pending two h v =
    let p : Partial = (partial_for now frag_id (length ps) pending).0 in
    let rest : Pending = (partial_for now frag_id (length ps) pending).1 in
    let q : Partial = (put_piece idx (get_or ps idx []) p).1 in
    let a =
      add_all-go_on now idx frag_id ps events pending
      ∙ ap (go_on frag_id ps events)
          (add-put now frag_id idx (length ps) (get_or ps idx []) pending two h.0 v.undelivered) in
    elim (put_piece-cases ps idx p h.0 (v.partial now)) [
      | inr c ↦ inl (
          a
          ∙ ap (λ o. go_on frag_id ps events (o, store frag_id q rest)) c.frame
          ∙ ap (◌∷◌ (concat ps)) (
              add_all-delivered frag_id ps events (store frag_id q rest) two
                (rw (find-store_self frag_id q rest) c.closed)))
      | inl w ↦
          waiting frag_id ps slots idx now events p (put_piece idx (get_or ps idx []) p) _ _
            (v.same now) w
            (a ∙ ap (λ o. go_on frag_id ps events (o, store frag_id q rest)) w.nothing)
            (add_all-Collected events frag_id ps q.pieces (store frag_id q rest) two h.1
              (stored-Ready frag_id ps q rest w.still))
    ]

-- For a frame that Split cuts into at least two pieces, under an id that is not pending: when pieces
-- of it arrive in any order and any number of times, Add returns the frame once in all, or never, and
-- then a piece has not arrived.
pub add_all-split :
    (frame : List ℕ) (max_piece frag_id : ℕ) (events : List (ℕ × ℕ)) (pending : Pending)
    → 2 ≤ length (split frame max_piece)
    → InRange (split frame max_piece) events
    → find frag_id pending ≡ none
    → let out = (add_all frag_id (split frame max_piece) events pending).0 in
      (out ≡ frame ∷ [])
      ⊎ ((out ≡ [])
          × (missing : ℕ) × (missing < length (split frame max_piece))
          × All (λ e. e.1 ≢ missing) events)
add_all-split frame max_piece frag_id events pending two h f =
    elim (add_all-Collected events frag_id (split frame max_piece) _ pending two h
      (absent-Ready frag_id (split frame max_piece) pending (omega arith) f)) [
        | inl e ↦ inl (e ∙ ap (λ x. x ∷ []) (concat-split frame max_piece).0)
        | inr (e, l) ↦ inr (e, l.missing, l.in_frame, l.never)
      ]
