-- ===== src/Fragment/Reassembler.antt =====
-- internal/fragment/fragment.go: Reassembler. Times are in nanoseconds, read by the caller from `now`.
pub mod Slots
pub mod Collect
use supervpn.Base.{
  ℕ, zero, suc, ◌+◌, ◌-◌, ◌*◌, ◌%◌, ◌^◌, ◌≤◌, ◌<◌, ◌≡◌, ◌≢◌, refl, ap, ap₂, ◌∙◌, sym, List, [], ◌∷◌,
  ◌++◌, ltb, leb, ◌==◌, ◌||◌, ◌&&◌, not, if◌then◌else◌, length, arith, true, false, Bool, Option,
  none, some, set, get_or, replicate,
}
use supervpn.Base.Assoc.{find, store, erase, keep}

abbrev pub reassembly_ttl : ℕ
reassembly_ttl = 2 * 1_000_000_000

abbrev pub max_pending : ℕ
max_pending = 256

pub record Partial : Type 0 where
  pub pieces : List (Option (List ℕ))
  pub count : ℕ
  pub got : ℕ
  pub total : ℕ
  pub created : ℕ
  pub done : Bool

abbrev pub Pending : Type 0
Pending = List (ℕ × Partial)

abbrev pub fresh : ℕ → ℕ → Partial
fresh count now = record {
  pieces = replicate count none;
  count = count;
  got = 0;
  total = 0;
  created = now;
  done = false;
}

abbrev pub in_time : ℕ → Partial → Bool
in_time now p = not (ltb reassembly_ttl (now - p.created))

-- The key of the oldest entry. The source's loop meets the entries in any order: where several are
-- equally old, this takes the first.
unfoldable pub oldest_from : ℕ → ℕ → Pending → ℕ
oldest_from id created [] = id
oldest_from id created ((i, p) ∷ pending) =
    if ltb p.created created
    then oldest_from i p.created pending
    else oldest_from id created pending

unfoldable pub drop_oldest : Pending → Pending
drop_oldest [] = []
drop_oldest ((i, p) ∷ pending) = erase (oldest_from i p.created pending) ((i, p) ∷ pending)

unfoldable pub evict_locked : ℕ → Pending → Pending
evict_locked now pending =
    let left = keep (in_time now) pending in
    if ltb (length left) max_pending then left else drop_oldest left

-- `for _, pc := range p.pieces { out = append(out, pc...) }`
unfoldable pub join : List (Option (List ℕ)) → List ℕ
join [] = []
join (none ∷ pieces) = join pieces
join (some pc ∷ pieces) = pc ++ join pieces

-- The second half of `Add`: the piece goes into the partial frame.
unfoldable pub put_piece : ℕ → List ℕ → Partial → Option (List ℕ) × Partial
put_piece idx piece p = elim (get_or p.pieces idx none) [
  | some _ ↦ (none, p)
  | none ↦
      let pieces = set p.pieces idx (some piece) in
      let total = p.total + length piece in
      if ltb (p.got + 1) p.count
      then (none, record p { pieces = pieces; got = p.got + 1; total = total })
      else (
        some (join pieces),
        record p { pieces = []; got = p.got + 1; total = total; done = true },
      )
]

-- The partial frame that the piece belongs to, and the map that it is stored in.
unfoldable pub partial_for : ℕ → ℕ → ℕ → Pending → Partial × Pending
partial_for now frag_id count pending = elim (find frag_id pending) [
  | none ↦ (fresh count now, evict_locked now pending)
  | some p ↦ if p.count == count then (p, pending) else (fresh count now, pending)
]

abbrev pub is_delivered : Option Partial → Bool
is_delivered none = false
is_delivered (some p) = p.done

-- `none` is the nil of the source.
unfoldable pub add : ℕ → ℕ → ℕ → ℕ → List ℕ → Pending → Option (List ℕ) × Pending
add now frag_id idx count piece pending =
    if count == 0 || leb count idx
    then (none, pending)
    else if count == 1
    then (some piece, pending)
    else if is_delivered (find frag_id pending)
    then (none, pending)
    else (let (p, rest) = partial_for now frag_id count pending in
        let (out, q) = put_piece idx piece p in (out, store frag_id q rest))
