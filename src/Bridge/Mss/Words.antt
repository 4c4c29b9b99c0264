-- ===== src/Bridge/Mss/Words.antt =====
-- internal/bridge/mssclamp.go: words of a frame and of its parts, and what rewriting one does.
use supervpn.Base.{
  ℕ, zero, suc, ◌+◌, ◌*◌, ◌/◌, ◌%◌, ◌^◌, ◌≤◌, ◌<◌, ◌≡◌, ◌≢◌, refl, List, [], ◌∷◌, length, arith, ok,
  ◌∙◌, ap, ap₂, sym, take, drop, set, get_or, All, IsByte, length-set, get_or-set_self,
  get_or-set_ne, get_or-drop, get_or-take, index, length-take, length-drop,
}
use supervpn.Bridge.Mss.{Stuck, u16_at, put_u16_at, rewrite}
use supervpn.Bridge.Mss.Checksum.{fix_checksum16_lem}
use supervpn.Bridge.Mss.Segment.{sum16, sum16-put_u16_at}

-- The 16-bit word at i.
abbrev pub word : ℕ → List ℕ → ℕ
word i b = get_or b i 0 * 256 + get_or b (i + 1) 0

pub index-get_or : (i : ℕ) (b : List ℕ) → i < length b → index {E = Stuck} i b ≡ ok (get_or b i 0)
unfolding index
index-get_or i [] h = absurd (omega arith)
index-get_or zero (x ∷ b) h = refl
index-get_or (suc i) (x ∷ b) h = index-get_or i b (omega arith)

pub byte_at : (i : ℕ) (b : List ℕ) → All IsByte b → get_or b i 0 < 256
byte_at i [] h = omega arith
byte_at zero (x ∷ b) h = h.0
byte_at (suc i) (x ∷ b) h = byte_at i b h.1

pub u16_at-word : (i : ℕ) (b : List ℕ) → i + 1 < length b → u16_at i b ≡ ok (word i b)
unfolding u16_at
u16_at-word i b h = rw (index-get_or i b (omega arith), index-get_or (i + 1) b h) refl

length-put_u16_at : (i v : ℕ) (b : List ℕ) → length (put_u16_at i v b) ≡ length b
unfolding put_u16_at
length-put_u16_at i v b =
    length-set (set b i (v / 256 % 256)) (i + 1) (v % 256) ∙ length-set b i (v / 256 % 256)

get_or-put_u16_at :
    (i v j : ℕ) (b : List ℕ) → j ≢ i → j ≢ i + 1 → get_or (put_u16_at i v b) j 0 ≡ get_or b j 0
unfolding put_u16_at
get_or-put_u16_at i v j b h k =
    get_or-set_ne (set b i (v / 256 % 256)) (i + 1) j (v % 256) 0 (λ e. k (sym e))
    ∙ get_or-set_ne b i j (v / 256 % 256) 0 (λ e. h (sym e))

word-put_u16_at :
    (i v : ℕ) (b : List ℕ) → i + 1 < length b → v < 2 ^ 16 → word i (put_u16_at i v b) ≡ v
unfolding put_u16_at
word-put_u16_at i v b h lt = omega (
  arith,
  get_or-set_ne (set b i (v / 256 % 256)) (i + 1) i (v % 256) 0 (λ e. omega arith),
  get_or-set_self b i (v / 256 % 256) 0 (omega arith),
  get_or-set_self (set b i (v / 256 % 256)) (i + 1) (v % 256) 0
      (omega (arith, length-set b i (v / 256 % 256))),
)

word-put_other : (i v j : ℕ) (b : List ℕ) → i + 1 < j → word i (put_u16_at j v b) ≡ word i b
word-put_other i v j b h =
    ap₂ (λ x y. x * 256 + y) (get_or-put_u16_at j v i b (λ e. omega arith) (λ e. omega arith))
      (get_or-put_u16_at j v (i + 1) b (λ e. omega arith) (λ e. omega arith))

word-put_before : (i v j : ℕ) (b : List ℕ) → j + 1 < i → word i (put_u16_at j v b) ≡ word i b
word-put_before i v j b h =
    ap₂ (λ x y. x * 256 + y) (get_or-put_u16_at j v i b (λ e. omega arith) (λ e. omega arith))
      (get_or-put_u16_at j v (i + 1) b (λ e. omega arith) (λ e. omega arith))

-- A frame whose MSS, at `mss`, was lowered to `max_mss`, with the checksum of the segment, which starts
-- at `start`, at `ck`.
pub record Rewritten (frame : List ℕ) (max_mss mss start ck : ℕ) (out : List ℕ) : Type 0 where
  pub in_range : mss + 1 < length frame
  pub apart : ck + 1 < mss
  pub same_length : length out ≡ length frame
  pub others :
      (j : ℕ) → j ≢ mss → j ≢ mss + 1 → j ≢ ck → j ≢ ck + 1 → get_or out j 0 ≡ get_or frame j 0
  pub lowered : max_mss < word mss frame
  pub now_max : word mss out ≡ max_mss
  pub checksum : (word ck out + word mss out) % 65_535 ≡ (word ck frame + word mss frame) % 65_535
  pub segment_sum :
      (n : ℕ)
      → mss ≡ start + 2 * n
      → sum16 (drop start out) % 65_535 ≡ sum16 (drop start frame) % 65_535

pub rewrite-Rewritten :
    (frame : List ℕ) (mss start ck old max_mss : ℕ)
    → All IsByte frame
    → mss + 1 < length frame
    → ck ≡ start + 16
    → ck + 1 < mss
    → max_mss < 2 ^ 16
    → old ≡ word mss frame
    → max_mss < old
    → (out : List ℕ) × (rewrite frame mss ck old max_mss ≡ ok out)
      × Rewritten frame max_mss mss start ck out
unfolding rewrite
rewrite-Rewritten frame mss start ck old max_mss bytes lt at_ck apart small is_old below =
    let out : List ℕ = put_u16_at mss max_mss frame in
    let len = length-put_u16_at mss max_mss frame in
    let hc = word-put_other ck max_mss mss frame apart in
    let (fixed, e, fit, sum) =
      fix_checksum16_lem (word ck out) old max_mss
        (omega (arith, hc, byte_at ck frame bytes, byte_at (ck + 1) frame bytes))
        (omega (arith, is_old, byte_at mss frame bytes, byte_at (mss + 1) frame bytes)) small in
    let new_ck = word-put_u16_at ck fixed out (omega (arith, len)) fit in
    let new_mss =
      word-put_before mss fixed ck out (omega arith) ∙ word-put_u16_at mss max_mss frame lt small in
    (
      put_u16_at ck fixed out,
      rw (u16_at-word ck out (omega (arith, len)), e) refl,
      record {
        in_range = lt;
        apart = apart;
        same_length = length-put_u16_at ck fixed out ∙ len;
        others = λ j a b c d.
            get_or-put_u16_at ck fixed j out c d ∙ get_or-put_u16_at mss max_mss j frame a b;
        lowered = omega (arith, is_old);
        now_max = new_mss;
        checksum = omega (arith, new_ck, new_mss, hc, sum, is_old);
        segment_sum = λ n e. omega (
          arith,
          sum16-put_u16_at start n mss max_mss frame e lt small,
          sum16-put_u16_at start 8 ck fixed out (omega arith) (omega (arith, len)) fit,
          hc,
          sum,
          is_old,
        );
      },
    )

-- `part` is what the frame holds from `from` on, or a piece of it.
pub record Inside (frame : List ℕ) (from : ℕ) (part : List ℕ) : Type 0 where
  pub fits : from + length part ≤ length frame
  pub bytes_of : (i : ℕ) → i < length part → get_or part i 0 ≡ get_or frame (from + i) 0

pub word-Inside :
    (frame part : List ℕ) (from i : ℕ)
    → Inside frame from part
    → i + 1 < length part
    → word i part ≡ word (from + i) frame
word-Inside frame part from i v h =
    ap₂ (λ x y. x * 256 + y) (v.bytes_of i (omega arith))
      (v.bytes_of (i + 1) h ∙ ap (λ j. get_or frame j 0) same)
  where
    same : from + (i + 1) ≡ from + i + 1
    same = omega arith

pub drop-Inside :
    (frame part : List ℕ) (from n : ℕ)
    → n ≤ length part
    → Inside frame from part
    → Inside frame (from + n) (drop n part)
drop-Inside frame part from n h v = record {
  fits = omega (arith, v.fits, length-drop {0} n part);
  bytes_of = λ i lt.
      get_or-drop n part i 0
      ∙ v.bytes_of (n + i) (omega (arith, length-drop {0} n part))
      ∙ ap (λ j. get_or frame j 0) (assoc i);
}
  where
    assoc : (i : ℕ) → from + (n + i) ≡ from + n + i
    assoc i = omega arith

pub take-Inside :
    (frame part : List ℕ) (from n : ℕ) → Inside frame from part → Inside frame from (take n part)
take-Inside frame part from n v = record {
  fits = omega (arith, v.fits, length-take {0} n part);
  bytes_of = λ i lt.
      get_or-take n part i 0 (omega (arith, length-take {0} n part))
      ∙ v.bytes_of i (omega (arith, length-take {0} n part));
}

pub whole-Inside : (frame : List ℕ) → Inside frame 0 frame
whole-Inside frame = record {
  fits = omega arith;
  bytes_of = λ i lt. ap (λ j. get_or frame j 0) (same i);
}
  where
    same : (i : ℕ) → i ≡ 0 + i
    same i = omega arith
