-- ===== src/Hub/Tests.antt =====
-- Runs of the hub, and its theorems at concrete inputs.
use supervpn.Base.{ℕ, ◌≡◌, refl, List, [], ◌∷◌, ◌++◌, replicate, arith, true}
use supervpn.Base.Assoc.{find, store}
use supervpn.Hub.Switch.{
  Client, Hub, new, join, leave, forward, learn, route, targets, new_ip, count_flap,
}
use supervpn.Hub.Learning.{forward-learned}
use supervpn.Hub.Clients.{Avoids, is_among}
use supervpn.Hub.Delivery.{Reachable, started, goes_on, joins, forward-left, forward-group}

abbrev client : ℕ → Client
client id = record { session_id = id; login = [] }

abbrev three : Hub
three = join (client 3) (join (client 2) (join (client 1) (new 7 [])))

three-Reachable : Reachable three
three-Reachable =
    goes_on (goes_on (goes_on (started 7 []) (joins (client 1))) (joins (client 2)))
      (joins (client 3))

-- From station 0a.. of session 1 to everyone, and a reply from station 0b.. of session 2.
abbrev hello : List ℕ
hello = replicate 6 255 ++ (10 ∷ 0 ∷ 0 ∷ 0 ∷ 0 ∷ 1 ∷ []) ++ (8 ∷ 0 ∷ [])

abbrev reply : List ℕ
reply = (10 ∷ 0 ∷ 0 ∷ 0 ∷ 0 ∷ 1 ∷ []) ++ (10 ∷ 0 ∷ 0 ∷ 0 ∷ 0 ∷ 2 ∷ []) ++ (8 ∷ 0 ∷ [])

hello_run : (forward 5 1 hello three).0 ≡ 2 ∷ 3 ∷ []
unfolding forward learn route targets join new new_ip find store count_flap
hello_run = refl

forward-learned_example : (forward 6 2 reply (forward 5 1 hello three).1).0 ≡ 1 ∷ []
unfolding join new find store
forward-learned_example =
    forward-learned 5 6 1 2 hello reply (client 1) three (omega arith) (omega arith) refl refl
      (λ e. omega arith) refl (λ e. omega arith) refl

forward-left_example : Avoids 2 (forward 5 1 hello (leave 2 three)).0
forward-left_example = forward-left 5 1 2 hello three three-Reachable

forward-group_example : is_among 3 (forward 5 1 hello three).0 ≡ true
unfolding join new find store
forward-group_example =
    forward-group 5 1 3 hello (client 3) three three-Reachable (omega arith) refl refl
      (λ e. omega arith)
