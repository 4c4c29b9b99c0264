-- ===== src/Hub/Manager.antt =====
-- internal/hub/hub.go: Manager.
use supervpn.Base.{ℕ, List, [], ◌∷◌, Option}
use supervpn.Base.Assoc.{find, store}
use supervpn.Hub.Switch.{Hub}

abbrev pub Manager : Type 0
Manager = List (ℕ × Hub)

abbrev pub new_manager : Manager
new_manager = []

unfoldable pub add : Hub → Manager → Manager
add h m = store h.id h m

unfoldable pub get : ℕ → Manager → Option Hub
get id m = find id m

unfoldable pub list : Manager → List Hub
list [] = []
list ((id, h) ∷ m) = h ∷ list m
