-- ===== src/Fec/StandIn.antt =====
-- A Reed-Solomon code for tests, with the documented lengths.
use supervpn.Base.{
  ℕ, zero, suc, ◌+◌, ◌≤◌, ◌<◌, ◌≡◌, ◌≢◌, refl, ap, ◌∙◌, List, [], ◌∷◌, length, replicate, some,
  none, Option, take, arith, true, All, length-replicate, subst,
}
use mathlib.Core.List.{map}
use supervpn.Fec.Shards.{ReedSolomon}

-- A stand-in for the Reed-Solomon code: repairs of zeros, and empty packets for the lost ones.
pub fill : Option (List ℕ) → Option (List ℕ)
fill none = some []
fill (some p) = some p

pub first_length : List (List ℕ) → ℕ
first_length [] = 0
first_length (p ∷ ps) = length p

fills_each :
    (k : ℕ) (slots : List (Option (List ℕ))) → All (λ s. s ≢ none) (take k (map fill slots))
unfolding fill
fills_each zero slots = tt
fills_each (suc k) [] = tt
fills_each (suc k) (none ∷ slots) = ((λ e. cc), fills_each k slots)
fills_each (suc k) (some p ∷ slots) = ((λ e. cc), fills_each k slots)

zeros_everywhere :
    (r n m : ℕ) → m ≡ n → All (λ s. length s ≡ n) (replicate r (replicate {A = ℕ} m 0))
zeros_everywhere zero n m e = tt
zeros_everywhere (suc r) n m e = (length-replicate {A = ℕ} m 0 ∙ e, zeros_everywhere r n m e)

length-map-fill : (slots : List (Option (List ℕ))) → length (map fill slots) ≡ length slots
length-map-fill [] = refl
length-map-fill (s ∷ slots) = ap suc (length-map-fill slots)

pub fills :
    (k r : ℕ) (slots result : List (Option (List ℕ)))
    → length slots ≡ k + r
    → some (map fill slots) ≡ some result
    → (k ≤ length result) × All (λ s. s ≢ none) (take k result)
fills k r slots result e f =
    subst (λ x. (k ≤ length x) × All (λ s. s ≢ none) (take k x)) (inside f)
      (omega (arith, length-map-fill slots), fills_each k slots)
  where
    inside : some (map fill slots) ≡ some result → map fill slots ≡ result
    inside h = cc

pub zeros_ok :
    (k r n : ℕ) (shards : List (List ℕ))
    → 0 < k
    → true ≡ true
    → length shards ≡ k
    → 0 < n
    → All (λ s. length s ≡ n) shards
    → (repairs : List (List ℕ)) × (some (replicate r (replicate {A = ℕ} (first_length shards) 0))
        ≡ some repairs)
      × (length repairs ≡ r)
      × All (λ s. length s ≡ n) repairs
unfolding first_length
zeros_ok k r n [] some_k made e pos h = absurd (omega (arith, e))
zeros_ok k r n (p ∷ ps) some_k made e pos h =
    (_, refl, length-replicate r _, zeros_everywhere r n (length p) h.0)

abbrev pub stand_in : ReedSolomon
stand_in = record {
  create = λ k r. true;
  encode = λ k r shards. some (replicate r (replicate (first_length shards) 0));
  reconstruct = λ k r slots. some (map fill slots);
  create_ok = λ k r p q h. refl;
  encode_ok = zeros_ok;
  reconstruct_fills = fills;
}
