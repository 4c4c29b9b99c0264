-- ===== src/Proto/HubList.antt =====
-- internal/proto/packet.go: the answer to a hub discovery, a counted list of named hubs.
use supervpn.Base.{
  ℕ, zero, suc, ◌+◌, ◌-◌, ◌/◌, ◌<◌, ◌^◌, ◌≡◌, ◌≢◌, refl, List, [], ◌∷◌, ◌++◌, append_assoc,
  append-nil, arith, leb, ltb, if◌then◌else◌, length, take, drop, byte, put_u16, big_endian,
  big_endian-put_u16, Go, ok, panic, guard, index, slice, slice_ok, slice_first, slice_rest, ◌>>=◌,
  ◌>>◌, Bool-cases, inl, inr, length-append, length-take, sym, ap, ◌∙◌, take_all, ltb→lt,
  ltb-false→le, All,
}
use mathlib.Core.List.{map}

pub record HubInfo : Type 0 where
  pub id : ℕ
  pub name : List ℕ

pub data ListError : Type 0 where
  list_empty : ListError
  entry_truncated name_truncated : ℕ → ListError

-- `if len(s) > 255 { s = s[:255] }`
unfoldable pub at_most_255 {ℓ} : {A : Type ℓ} → List A → List A
at_most_255 xs = if ltb 255 (length xs) then take 255 xs else xs

unfoldable pub marshal_entry : HubInfo → List ℕ
marshal_entry h = let name = at_most_255 h.name in put_u16 h.id ++ (byte (length name) ∷ name)

unfoldable pub append_entries : List ℕ → List HubInfo → List ℕ
append_entries buf [] = buf
append_entries buf (h ∷ hs) = append_entries (buf ++ marshal_entry h) hs

unfoldable pub marshal_hub_list : List HubInfo → List ℕ
marshal_hub_list hubs =
    let n = if ltb 255 (length hubs) then 255 else length hubs in
    append_entries (byte n ∷ []) (take n hubs)

-- The loop of the parser: the entries still to read, the index i, the rest of b, the hubs so far.
unfoldable pub parse_entries : ℕ → ℕ → List ℕ → List HubInfo → Go ListError (List HubInfo)
parse_entries zero i b hubs = ok hubs
parse_entries (suc left) i b hubs = do
  guard (leb 3 (length b)) (entry_truncated i)
  id ← slice 0 2 b
  name_len ← index 2 b
  b ← slice 3 (length b) b
  guard (leb name_len (length b)) (name_truncated i)
  name ← slice 0 name_len b
  b ← slice name_len (length b) b
  parse_entries left (i + 1) b (hubs ++ (record { id = big_endian id; name = name } ∷ []))

unfoldable pub parse_hub_list : List ℕ → Go ListError (List HubInfo)
parse_hub_list b = do
  guard (leb 1 (length b)) list_empty
  count ← index 0 b
  b ← slice 1 (length b) b
  parse_entries count 0 b []

-- What survives the encoding: the first 255 hubs, each with the first 255 bytes of its name.
abbrev pub cut_name : HubInfo → HubInfo
cut_name h = record h { name = take 255 h.name }

abbrev pub entries : List HubInfo → List ℕ
entries [] = []
entries (h ∷ hs) = marshal_entry h ++ entries hs

at_most_255-take {ℓ} : {A : Type ℓ} (xs : List A) → at_most_255 xs ≡ take 255 xs
unfolding at_most_255
at_most_255-take xs = elim (Bool-cases (ltb 255 (length xs))) [
  | inl long ↦ rw long
  | inr short ↦ rw short (sym (take_all 255 xs (ltb-false→le 255 (length xs) short)))
]

append_entries-entries :
    (hs : List HubInfo) (buf : List ℕ) → append_entries buf hs ≡ buf ++ entries hs
unfolding append_entries
append_entries-entries [] buf = sym (append-nil buf)
append_entries-entries (h ∷ hs) buf =
    append_entries-entries hs (buf ++ marshal_entry h)
    ∙ append_assoc buf (marshal_entry h) (entries hs)

-- One round of the loop on an entry that `marshal_entry` wrote.
named_step :
    (left i id : ℕ) (name rest : List ℕ) (hubs : List HubInfo)
    → id < 2 ^ 16
    → length name < 256
    → parse_entries (suc left) i (put_u16 id ++ (byte (length name) ∷ (name ++ rest))) hubs
      ≡ parse_entries left (i + 1) rest (hubs ++ (record { id = id; name = name } ∷ []))
unfolding parse_entries index
named_step left i id name rest hubs lt short =
    let front : List ℕ = byte (id / 256) ∷ byte id ∷ [] in
    ground (
      arith,
      slice_first {E = ListError} front (byte (length name) ∷ (name ++ rest)) 2,
      slice_rest {E = ListError} (front ++ (byte (length name) ∷ [])) (name ++ rest) 3,
      slice_first {E = ListError} name rest (length name),
      slice_rest {E = ListError} name rest (length name),
      length-append name rest,
      big_endian-put_u16 id lt,
    )

parse_entries_step :
    (left i : ℕ) (h : HubInfo) (rest : List ℕ) (hubs : List HubInfo)
    → h.id < 2 ^ 16
    → parse_entries (suc left) i (marshal_entry h ++ rest) hubs
      ≡ parse_entries left (i + 1) rest (hubs ++ (cut_name h ∷ []))
unfolding marshal_entry
parse_entries_step left i h rest hubs lt =
    rw at_most_255-take (
      named_step left i h.id (take 255 h.name) rest hubs lt (omega (arith, length-take 255 h.name)))

abbrev IsId : HubInfo → Type 0
IsId h = h.id < 2 ^ 16

parse_entries-entries :
    (hs : List HubInfo) (i : ℕ) (tail : List ℕ) (hubs : List HubInfo)
    → All IsId hs
    → parse_entries (length hs) i (entries hs ++ tail) hubs ≡ ok (hubs ++ map cut_name hs)
parse_entries-entries [] i tail hubs v = unfold parse_entries in ap ok (sym (append-nil hubs))
parse_entries-entries (h ∷ hs) i tail hubs v =
    rw (append_assoc (marshal_entry h) (entries hs) tail) (
      parse_entries_step (length hs) i h (entries hs ++ tail) hubs v.0
      ∙ parse_entries-entries hs (i + 1) tail (hubs ++ (cut_name h ∷ [])) v.1
      ∙ ap ok (append_assoc hubs (cut_name h ∷ []) (map cut_name hs)))

All-take : (n : ℕ) (hs : List HubInfo) → All IsId hs → All IsId (take n hs)
All-take zero hs v = tt
All-take (suc n) [] v = tt
All-take (suc n) (h ∷ hs) v = (v.0, All-take n hs v.1)

counted :
    (n : ℕ) (hs : List HubInfo) (tail : List ℕ)
    → n ≡ length hs
    → n < 256
    → All IsId hs
    → parse_hub_list (append_entries (byte n ∷ []) hs ++ tail) ≡ ok (map cut_name hs)
unfolding parse_hub_list index
counted n hs tail e lt v = rw (append_entries-entries hs (byte n ∷ [])) (
    ground (
      arith,
      slice_rest {E = ListError} (byte n ∷ []) (entries hs ++ tail) 1,
      parse_entries-entries hs 0 tail [] v,
    ))

-- A client sees the first 255 hubs of the server, in order, each with the first 255 bytes of its name.
pub parse_hub_list-marshal_hub_list :
    (hubs : List HubInfo) (tail : List ℕ)
    → All IsId hubs
    → parse_hub_list (marshal_hub_list hubs ++ tail) ≡ ok (map cut_name (take 255 hubs))
unfolding marshal_hub_list
parse_hub_list-marshal_hub_list hubs tail v = elim (Bool-cases (ltb 255 (length hubs))) [
  | inl long ↦ rw long (
      counted 255 (take 255 hubs) tail
        (omega (arith, length-take 255 hubs, ltb→lt 255 (length hubs) long)) (omega arith)
        (All-take 255 hubs v))
  | inr short ↦
      let fits = ltb-false→le 255 (length hubs) short in
      rw (short, take_all (length hubs) hubs (omega arith), take_all 255 hubs fits)
        (counted (length hubs) hubs tail refl (omega arith) v)
]

parse_entries-ne-panic :
    (left i : ℕ) (b : List ℕ) (hubs : List HubInfo) → parse_entries left i b hubs ≢ panic
unfolding parse_entries index
parse_entries-ne-panic zero i b hubs = λ e. cc
parse_entries-ne-panic (suc left) i [] hubs = λ e. cc
parse_entries-ne-panic (suc left) i (x ∷ []) hubs = λ e. cc
parse_entries-ne-panic (suc left) i (x ∷ y ∷ []) hubs = λ e. cc
parse_entries-ne-panic (suc left) i (x ∷ y ∷ n ∷ r) hubs = ground (
  arith,
  slice_ok {E = ListError} 0 2 (x ∷ y ∷ n ∷ r),
  slice_rest {E = ListError} (x ∷ y ∷ n ∷ []) r 3,
  slice_ok {E = ListError} 0 n r,
  slice_ok {E = ListError} n (length r) r,
  parse_entries-ne-panic left (i + 1) (take (length r - n) (drop n r)) (
      hubs
      ++ (record { id = big_endian (take (2 - 0) (x ∷ y ∷ n ∷ r)); name = take (n - 0) r } ∷ [])),
)

-- On any input the parser stays inside the buffer.
pub parse_hub_list-ne-panic : (b : List ℕ) → parse_hub_list b ≢ panic
unfolding parse_hub_list index
parse_hub_list-ne-panic [] = λ e. cc
parse_hub_list-ne-panic (n ∷ r) =
    ground (arith, slice_rest {E = ListError} (n ∷ []) r 1, parse_entries-ne-panic n 0 r [])
