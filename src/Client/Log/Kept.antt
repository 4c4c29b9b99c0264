-- ===== src/Client/Log/Kept.antt =====
-- internal/vpnclient/client.go: which lines the log holds.
use supervpn.Base.{
  ℕ, suc, ◌-◌, ◌≤◌, ◌≡◌, refl, List, [], ◌∷◌, ◌++◌, ltb, length, drop, arith, inl, inr, Bool-cases,
  ◌∙◌, ap, length-append, length-drop, append_assoc, append-nil,
}
use supervpn.Client.Log.{Log, empty_log, max_log_lines, logf, logf_all}

-- The last lines, as many as the log holds.
abbrev last_lines : List (List ℕ) → List (List ℕ)
last_lines lines = drop (length lines - max_log_lines) lines

logf-lines :
    (msg : List ℕ) (l : Log) → (logf msg l).log_lines ≡ last_lines (l.log_lines ++ (msg ∷ []))
unfolding logf
logf-lines msg l = elim (Bool-cases (ltb max_log_lines (length (l.log_lines ++ (msg ∷ []))))) [
  | inl over ↦ rw over refl
  | inr fits ↦
      let none_out : length (l.log_lines ++ (msg ∷ [])) - max_log_lines ≡ 0 =
        ground (arith, fits) in
      rw (fits, none_out) refl
]

-- Lines that fell out before do not matter.
last_lines-append :
    (old more : List (List ℕ))
    → length old ≤ suc max_log_lines
    → last_lines (last_lines old ++ more) ≡ last_lines (old ++ more)
last_lines-append [] more h = refl
last_lines-append (x ∷ old) more h = elim (Bool-cases (ltb max_log_lines (length (x ∷ old)))) [
  | inl over ↦
      let one_out : length old ≡ max_log_lines = ground (arith, over, h) in
      let front : length (x ∷ old) - max_log_lines ≡ 1 = omega (arith, one_out) in
      let left : length (x ∷ (old ++ more)) - max_log_lines
          ≡ suc (length (old ++ more) - max_log_lines) =
        omega (arith, one_out, length-append {0} old more) in
      rw (front, left) refl
  | inr fits ↦
      let none_out : length (x ∷ old) - max_log_lines ≡ 0 = ground (arith, fits) in rw none_out refl
]

length-last_lines : (lines : List (List ℕ)) → length (last_lines lines) ≤ max_log_lines
length-last_lines lines = omega (arith, length-drop {0} (length lines - max_log_lines) lines)

logged :
    (msgs : List (List ℕ)) (l : Log)
    → length l.log_lines ≤ max_log_lines
    → (logf_all msgs l).log_lines ≡ last_lines (l.log_lines ++ msgs)
unfolding logf_all
logged [] l h =
    let none_out : length l.log_lines - max_log_lines ≡ 0 = omega arith in
    rw (append-nil, none_out) refl
logged (msg ∷ msgs) l h =
    logged msgs (logf msg l) (rw (logf-lines msg l) (length-last_lines (l.log_lines ++ (msg ∷ []))))
    ∙ ap (λ lines. last_lines (lines ++ msgs)) (logf-lines msg l)
    ∙ last_lines-append (l.log_lines ++ (msg ∷ [])) msgs
        (omega (arith, length-append {0} l.log_lines (msg ∷ [])))
    ∙ ap last_lines (append_assoc l.log_lines (msg ∷ []) msgs)

-- After any messages the log holds the last 500 of them, in order, and all of them where there were
-- fewer; it never holds more than 500 lines.
pub logf_all-last_lines :
    (msgs : List (List ℕ))
    → ((logf_all msgs empty_log).log_lines ≡ drop (length msgs - max_log_lines) msgs)
      × (length (logf_all msgs empty_log).log_lines ≤ max_log_lines)
logf_all-last_lines msgs =
    let e = logged msgs empty_log (omega arith) in (e, rw e (length-last_lines msgs))
