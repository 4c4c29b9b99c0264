-- ===== src/Base/Net.antt =====
-- net.SplitHostPort, net.JoinHostPort and strconv.Atoi on Go strings.
use Prim.Native.Nat.{ℕ}
use mathlib.Core.Bool.{Bool, false, not, ◌||◌}
use mathlib.Core.List.{List, [], ◌∷◌, ◌++◌}
use mathlib.Core.Option.{Option, none, some}
use supervpn.Base.Tests.{◌==◌, if◌then◌else◌}
use supervpn.Base.Lists.{is_empty, drop, get_or}

unfoldable pub has_byte : ℕ → List ℕ → Bool
has_byte c [] = false
has_byte c (b ∷ bs) = b == c || has_byte c bs

-- The part before the last `c` and the part after it.
unfoldable pub cut_last : ℕ → List ℕ → Option (List ℕ × List ℕ)
cut_last c [] = none
cut_last c (b ∷ bs) = elim (cut_last c bs) [
  | some (front, back) ↦ some (b ∷ front, back)
  | none ↦ if b == c then some ([], bs) else none
]

-- The part before the first `c` and the part after it.
unfoldable pub cut_first : ℕ → List ℕ → Option (List ℕ × List ℕ)
cut_first c [] = none
cut_first c (b ∷ bs) =
    let rest : Option (List ℕ × List ℕ) = elim (cut_first c bs) [
      | some (front, back) ↦ some (b ∷ front, back)
      | none ↦ none
    ] in
    if b == c then some ([], bs) else rest

-- The host in brackets: "]" must stand right before the last colon, and no further bracket follow.
unfoldable pub split_bracketed : List ℕ → List ℕ → Option (List ℕ × List ℕ)
split_bracketed inner port = elim (cut_first b']' inner) [
  | none ↦ none
  | some (host, after) ↦
      if has_byte b'[' host || not (is_empty after) || has_byte b'[' port || has_byte b']' port
      then none
      else some (host, port)
]

-- `none` is an error. The cases are the host in brackets and the plain host.
unfoldable pub split_host_port : List ℕ → Option (List ℕ × List ℕ)
split_host_port addr = elim (cut_last b':' addr) [
  | none ↦ none
  | some (front, port) ↦
      if get_or addr 0 0 == b'['
      then split_bracketed (drop 1 front) port
      else if has_byte b':' front || has_byte b'[' addr || has_byte b']' addr
      then none
      else some (front, port)
]

unfoldable pub join_host_port : List ℕ → List ℕ → List ℕ
join_host_port host port =
    if has_byte b':' host then b'[' ∷ (host ++ (b']' ∷ b':' ∷ port)) else host ++ (b':' ∷ port)
