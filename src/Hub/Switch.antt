-- ===== src/Hub/Switch.antt =====
-- internal/hub/hub.go: Hub. A MAC address is the number that its six bytes stand for, and times are in
-- nanoseconds. The calls of a client's `Send` are the list of sessions that a frame goes to.
use supervpn.Base.{
  ℕ, ◌+◌, ◌-◌, ◌*◌, ◌%◌, ◌^◌, List, [], ◌∷◌, ltb, leb, ◌==◌, ◌||◌, not, if◌then◌else◌, length, true,
  false, Bool, Option, none, some, take, drop, get_or, big_endian,
}
use supervpn.Base.Assoc.{find, store, erase, keep}

abbrev second : ℕ
second = 1_000_000_000

abbrev pub mac_table_ttl : ℕ
mac_table_ttl = 300 * second

pub record Client : Type 0 where
  pub session_id : ℕ
  pub login : List ℕ

pub record MacEntry : Type 0 where
  pub session_id : ℕ
  pub expires : ℕ
  pub ip : Option (List ℕ)

-- `last_flap_log` is `none` for the zero time.
pub record Hub : Type 0 where
  pub id : ℕ
  pub name : List ℕ
  pub clients : List (ℕ × Client)
  pub mac_table : List (ℕ × MacEntry)
  pub last_flap_log : Option ℕ
  pub flap_count : ℕ

unfoldable pub new : ℕ → List ℕ → Hub
new id name = record {
  id = id;
  name = name;
  clients = [];
  mac_table = [];
  last_flap_log = none;
  flap_count = 0;
}

unfoldable pub join : Client → Hub → Hub
join c h = record h { clients = store c.session_id c h.clients }

unfoldable pub leave : ℕ → Hub → Hub
leave session_id h = record h { clients = erase session_id h.clients }

abbrev pub dst_mac : List ℕ → ℕ
dst_mac frame = big_endian (take 6 frame)

abbrev pub src_mac : List ℕ → ℕ
src_mac frame = big_endian (take 6 (drop 6 frame))

-- Whether another session had the source address.
abbrev pub has_moved : Option MacEntry → ℕ → Bool
has_moved none src_session = false
has_moved (some e) src_session = not (e.session_id == src_session)

abbrev pub needs_update : ℕ → Option MacEntry → ℕ → Bool
needs_update now none src_session = true
needs_update now (some e) src_session =
    not (e.session_id == src_session) || ltb (e.expires - now) (60 * second)

-- The sender's IPv4 address in an ARP or an IPv4 frame, else the one known.
unfoldable pub new_ip : Option MacEntry → List ℕ → Option (List ℕ)
new_ip entry frame =
    let known : Option (List ℕ) = elim entry [ none ↦ none | some e ↦ e.ip ] in
    let ether_type = big_endian (take 2 (drop 12 frame)) in
    if ltb (length frame) 14
    then known
    else if ether_type == 0x0806
    then (if leb 32 (length frame) then some (take 4 (drop 28 frame)) else known)
    else if ether_type == 0x0800
    then (if leb 30 (length frame) then some (take 4 (drop 26 frame)) else known)
    else known

-- `time.Since(h.lastFlapLog) > 5*time.Second`
abbrev pub should_log : ℕ → Option ℕ → Bool
should_log now none = true
should_log now (some t) = ltb (5 * second) (now - t)

unfoldable pub count_flap : ℕ → Hub → Hub
count_flap now h = record h {
  last_flap_log = if should_log now h.last_flap_log then some now else h.last_flap_log;
  flap_count = (h.flap_count + 1) % 2 ^ 64;
}

-- The first half of Forward: the hub has seen the source address at this session.
unfoldable pub learn : ℕ → ℕ → List ℕ → Hub → Hub
learn now src_session frame h =
    let entry = find (src_mac frame) h.mac_table in
    let h' = if has_moved entry src_session then count_flap now h else h in
    let learned : MacEntry = record {
      session_id = src_session;
      expires = now + mac_table_ttl;
      ip = new_ip entry frame;
    } in
    if needs_update now entry src_session
    then record h' { mac_table = store (src_mac frame) learned h'.mac_table }
    else h'

-- The sessions of the clients other than the source.
unfoldable pub targets : ℕ → List (ℕ × Client) → List ℕ
targets src_session [] = []
targets src_session ((key, c) ∷ clients) =
    let rest = targets src_session clients in
    if c.session_id == src_session then rest else c.session_id ∷ rest

abbrev pub is_group : List ℕ → Bool
is_group frame = dst_mac frame == 2 ^ 48 - 1 || get_or frame 0 0 % 2 == 1

-- The second half: where the frame goes, by the entry of its destination.
unfoldable pub route : ℕ → List ℕ → Option MacEntry → List (ℕ × Client) → List ℕ
route src_session frame none clients = targets src_session clients
route src_session frame (some e) clients =
    if is_group frame then targets src_session clients else (elim (find e.session_id clients) [
      | none ↦ targets src_session clients
      | some c ↦ if c.session_id == src_session then [] else c.session_id ∷ []
    ])

-- The destination is looked up before the source is learned, and again after the table was written.
unfoldable pub forward : ℕ → ℕ → List ℕ → Hub → List ℕ × Hub
forward now src_session frame h =
    let h' = learn now src_session frame h in
    let entry = find (dst_mac frame) h'.mac_table in
    if ltb (length frame) 12 then ([], h) else (route src_session frame entry h'.clients, h')

pub record MacRecord : Type 0 where
  pub mac : ℕ
  pub session_id : ℕ
  pub login : List ℕ
  pub ip : Option (List ℕ)
  pub expires_in : ℕ

-- `now.After(e.expires)`
abbrev pub is_stale : ℕ → MacEntry → Bool
is_stale now e = ltb e.expires now

-- `ExpiresIn` is cut to whole seconds.
unfoldable pub snapshot_from : ℕ → List (ℕ × Client) → List (ℕ × MacEntry) → List MacRecord
snapshot_from now clients [] = []
snapshot_from now clients ((mac, e) ∷ table) =
    let rest = snapshot_from now clients table in
    let login : List ℕ = elim (find e.session_id clients) [ none ↦ [] | some c ↦ c.login ] in
    let left = e.expires - now in
    if is_stale now e
    then rest
    else (record {
      mac = mac;
      session_id = e.session_id;
      login = login;
      ip = e.ip;
      expires_in = left - left % second;
    }
        ∷ rest)

unfoldable pub mac_table_snapshot : ℕ → Hub → List MacRecord
mac_table_snapshot now h = snapshot_from now h.clients h.mac_table

abbrev pub client_count : Hub → ℕ
client_count h = length h.clients

unfoldable pub purge_mac_table : ℕ → Hub → Hub
purge_mac_table now h = record h { mac_table = keep (λ e. not (is_stale now e)) h.mac_table }
