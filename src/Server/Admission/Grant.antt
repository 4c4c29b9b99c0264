-- ===== src/Server/Admission/Grant.antt =====
-- cmd/supervpn-server/main.go: when handleAuth starts a session.
use supervpn.Base.{
  ℕ, ◌≡◌, refl, List, [], ◌∷◌, ◌==◌, ltb, length, is_empty, none, some, true, false, Go, ok, err,
  panic, ◌⊎◌, inl, inr, Bool-cases, Option-cases, arith, ap,
}
use supervpn.Base.Text.{codes, hex_encode}
use supervpn.Proto.Auth.Message.{auth_msg_hello}
use supervpn.Proto.Auth.Hello.{AuthHello, HelloError, parse_hello}
use supervpn.Config.Defaults.{fec_with_defaults}
use supervpn.Crypto.Keys.{derive_key}
use supervpn.Fec.Encoder.{InitError}
use supervpn.Fec.Pipe.{Pipe, new_pipe}
use supervpn.Hub.Switch.{Hub}
use supervpn.Hub.Manager.{get}
use supervpn.Server.State.{Outside, Server}
use supervpn.Server.Lifecycle.{new_session_id}
use supervpn.Server.Admission.Known.{IsConfigured, stored_hash-IsConfigured}
use supervpn.Server.Admission.{
  Admitted, Peer, Draw, unsigned, delay_of, is_banned, stored_hash, hub_net_name, kick_until,
  login_banned, new_session, enter, start_session, admit_user, admit_hello, admit_request,
  admit_payload, handle_auth,
}

-- No session: the id is 0 and the server is as it was.
abbrev pub Refused : Server → Admitted → Type 0
Refused srv r = (r.1 ≡ 0) × (r.2 ≡ srv)

module _ (env : Outside) (now : ℕ) (draw : Draw) (peer : Peer) (srv : Server) where
  -- The session that is started, with its key and its pipe.
  pub record Started (wire : List ℕ) (hello : AuthHello) (h : Hub) (r : Admitted) : Type 0 where
    pub key : List ℕ
    pub pipe : Pipe
    pub derived :
        derive_key env.keys wire (hub_net_name hello.hub_id) (codes "server") hello.login ≡ some key
    pub key_long : ltb (length key) 16 ≡ false
    pub piped :
        new_pipe env.reed_solomon
          (unsigned (fec_with_defaults srv.fec).k)
          (unsigned (fec_with_defaults srv.fec).r)
          (delay_of (fec_with_defaults srv.fec).repair_delay)
          true
        ≡ ok pipe
    pub entered :
        r
        ≡ enter env
            (new_session env now (new_session_id draw.session) key draw.salt pipe hello peer)
            h
            (fec_with_defaults srv.fec)
            srv

  -- What the server knew of the user when it started the session.
  pub record Granted (payload : List ℕ) (r : Admitted) : Type 0 where
    pub request : List ℕ
    pub hello : AuthHello
    pub hub : Hub
    pub address_allowed : is_banned peer.addr srv ≡ false
    pub asked : payload ≡ auth_msg_hello ∷ request
    pub parsed : parse_hello request ≡ ok hello
    pub hub_found : get hello.hub_id srv.manager ≡ some hub
    pub known : is_empty (stored_hash hello.login hello.hub_id srv.hubs []) ≡ false
    pub configured :
        IsConfigured hello.login hello.hub_id
          (stored_hash hello.login hello.hub_id srv.hubs [])
          srv.hubs
    pub password_right :
        env.check_password
          (hex_encode hello.pw_hash)
          (stored_hash hello.login hello.hub_id srv.hubs [])
        ≡ true
    pub not_kicked : kick_until now hello.login srv ≡ none
    pub login_allowed : login_banned hello.login hello.hub_id srv ≡ false
    pub started : Started (hex_encode hello.pw_hash) hello hub r

  Go-cases :
      (g : Go InitError Pipe)
      → ((pipe : Pipe) × (g ≡ ok pipe)) ⊎ (((e : InitError) × (g ≡ err e)) ⊎ (g ≡ panic))
  Go-cases (ok pipe) = inl (pipe, refl)
  Go-cases (err e) = inr (inl (e, refl))
  Go-cases panic = inr (inr refl)

  start_session-cases :
      (wire : List ℕ) (hello : AuthHello) (h : Hub)
      → let r = start_session env now draw wire hello h peer srv in
        Refused srv r ⊎ Started wire hello h r
  unfolding start_session
  start_session-cases wire hello h =
      let f = fec_with_defaults srv.fec in
      let derive =
        derive_key env.keys wire (hub_net_name hello.hub_id) (codes "server") hello.login in
      let init =
        new_pipe env.reed_solomon (unsigned f.k) (unsigned f.r) (delay_of f.repair_delay) true in
      elim (Option-cases derive) [
        | inl no_key ↦ rw (start_session, no_key) (inl (refl, refl))
        | inr (key, derived) ↦ elim (Bool-cases (ltb (length key) 16)) [
          | inl short ↦ rw (start_session, derived, short) (inl (refl, refl))
          | inr long ↦ elim (Go-cases init) [
            | inl (pipe, piped) ↦ inr (record {
              key = key;
              pipe = pipe;
              derived = derived;
              key_long = long;
              piped = piped;
              entered = rw (start_session, derived, long, piped) refl;
            })
            | inr (inl (e, bad)) ↦ rw (start_session, derived, long, bad) (inl (refl, refl))
            | inr (inr bad) ↦ rw (start_session, derived, long, bad) (inl (refl, refl))
          ]
        ]
      ]

  Hello-cases :
      (g : Go HelloError AuthHello)
      → ((hello : AuthHello) × (g ≡ ok hello)) ⊎ (((e : HelloError) × (g ≡ err e)) ⊎ (g ≡ panic))
  Hello-cases (ok hello) = inl (hello, refl)
  Hello-cases (err e) = inr (inl (e, refl))
  Hello-cases panic = inr (inr refl)

  admit_user-cases :
      (wire : List ℕ) (hello : AuthHello) (h : Hub)
      → let r = admit_user env now draw wire hello h peer srv in
        Refused srv r
        ⊎ ((kick_until now hello.login srv ≡ none)
            × (login_banned hello.login hello.hub_id srv ≡ false)
            × Started wire hello h r)
  unfolding admit_user
  admit_user-cases wire hello h = elim (Option-cases (kick_until now hello.login srv)) [
    | inr (until, kicked) ↦ rw (admit_user, kicked) (inl (refl, refl))
    | inl free ↦ elim (Bool-cases (login_banned hello.login hello.hub_id srv)) [
      | inl banned ↦ rw (admit_user, free, banned) (inl (refl, refl))
      | inr allowed ↦ elim (start_session-cases wire hello h) [
        | inl refused ↦ rw (admit_user, free, allowed) (inl refused)
        | inr started ↦ rw (admit_user, free, allowed) (inr (refl, refl, started))
      ]
    ]
  ]

  admit_hello-cases :
      (payload request : List ℕ) (hello : AuthHello)
      → is_banned peer.addr srv ≡ false
      → payload ≡ auth_msg_hello ∷ request
      → parse_hello request ≡ ok hello
      → let r = admit_hello env now draw hello peer srv in Refused srv r ⊎ Granted payload r
  unfolding admit_hello
  admit_hello-cases payload request hello allowed asked parsed =
      let stored = stored_hash hello.login hello.hub_id srv.hubs [] in
      let wire = hex_encode hello.pw_hash in
      elim (Option-cases (get hello.hub_id srv.manager)) [
        | inl no_hub ↦ rw (admit_hello, no_hub) (inl (refl, refl))
        | inr (h, found) ↦ elim (Bool-cases (is_empty stored)) [
          | inl unknown ↦ rw (admit_hello, found, unknown) (inl (refl, refl))
          | inr known ↦ elim (Bool-cases (env.check_password wire stored)) [
            | inr wrong ↦ rw (admit_hello, found, known, wrong) (inl (refl, refl))
            | inl right ↦ elim (admit_user-cases wire hello h) [
              | inl refused ↦ rw (admit_hello, found, known, right) (inl refused)
              | inr (not_kicked, login_allowed, started) ↦
                  rw (admit_hello, found, known, right)
                    (inr (record {
                      request = request;
                      hello = hello;
                      hub = h;
                      address_allowed = allowed;
                      asked = asked;
                      parsed = parsed;
                      hub_found = found;
                      known = known;
                      configured = stored_hash-IsConfigured hello.login hello.hub_id srv.hubs known;
                      password_right = right;
                      not_kicked = not_kicked;
                      login_allowed = login_allowed;
                      started = started;
                    }))
            ]
          ]
        ]
      ]

  admit_payload-cases :
      (payload : List ℕ)
      → is_banned peer.addr srv ≡ false
      → let r = admit_payload env now draw payload peer srv in Refused srv r ⊎ Granted payload r
  unfolding admit_payload admit_request
  admit_payload-cases [] allowed = inl (refl, refl)
  admit_payload-cases (kind ∷ request) allowed = elim (Bool-cases (kind == auth_msg_hello)) [
    | inr other ↦ rw (admit_payload, other) (inl (refl, refl))
    | inl named ↦
        let e : kind ≡ auth_msg_hello = ground arith in
        elim (Hello-cases (parse_hello request)) [
          | inl (hello, parsed) ↦
              rw (admit_payload, named, parsed)
                (admit_hello-cases (kind ∷ request) request hello allowed (ap (λ k. k ∷ request) e)
                  parsed)
          | inr (inl (x, bad)) ↦ rw (admit_payload, named, bad) (inl (refl, refl))
          | inr (inr bad) ↦ rw (admit_payload, named, bad) (inl (refl, refl))
        ]
  ]

  -- Either the request is refused and nothing has changed, or the hub exists, the configuration has a user
  -- of that login in it with a password hash that is not empty, the client's password passes against that
  -- hash, neither the address nor the login was banned or kicked, and the session is started.
  pub handle_auth-Granted :
      (payload : List ℕ)
      → let r = handle_auth env now draw payload peer srv in Refused srv r ⊎ Granted payload r
  unfolding handle_auth
  handle_auth-Granted payload = elim (Bool-cases (is_banned peer.addr srv)) [
    | inl banned ↦ rw (handle_auth, banned) (inl (refl, refl))
    | inr allowed ↦ rw (handle_auth, allowed) (admit_payload-cases payload allowed)
  ]
