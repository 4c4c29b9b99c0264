-- ===== src/Lib.antt =====
-- supervpn is a layer-2 VPN. A client captures the Ethernet frames of a local interface, clamps the MSS
-- of TCP connections (internal/bridge), corrects losses with repair packets (internal/fec), cuts frames
-- that a datagram cannot hold (internal/fragment), encrypts every packet (internal/crypto) behind a
-- fixed header (internal/proto), and sends it to the server; the server opens the packet, decodes it,
-- and forwards the frame between the sessions of a hub, which is a learning switch (internal/hub).
--
-- The files and the code:
--   Base            shared helpers: Boolean tests on numbers, lists measured and indexed by native
--                   numbers, maps as association lists (Assoc, Related), Go strings (Text),
--                   addresses (Net) and ints (Ints), the results of Go functions that may return an
--                   error or panic (Outcome), big-endian numbers (Bytes), bitwise operations (Bits).
--   Proto           internal/proto/packet.go. Header: Header.Marshal and ParseHeader. Seq: the Pack
--                   and Unpack functions of sequence numbers. Auth/Hello: AuthHello. Auth/Reply:
--                   AuthOK and AuthError. HubList: MarshalHubList and ParseHubList.
--   Crypto          internal/crypto/crypto.go. Keys: DeriveKey. Replay: ReplayWindow, whose eight
--                   words are `window` and whose Check is `check`; Replay/Spec states the unbounded
--                   history that it stands for. Packet: Cipher.Seal and Cipher.Open with the AEAD as
--                   a parameter.
--   Fec             internal/fec. Xor: xorAll and xorRecover. Shards: rsEncode and rsRecover.
--                   Encoder: Encoder. Block: decBlock and the part of Decoder.add and tryRecover
--                   that works on one block. Decoder: the map of blocks, add and expire, with
--                   proofs in its children. Flush: FlushStale. Pipe: NewPipe, Send, the sender of
--                   delayed repairs and the receiving side of pipe.go. StandIn: a code for tests.
--   Fragment        internal/fragment/fragment.go. Split: Split and NeedsSplit. Reassembler: Add and
--                   evictLocked.
--   Bridge          internal/bridge. Mss: ClampTCPMSS and fixChecksum16 of mssclamp.go;
--                   Mss/Position describes where a frame has an MSS, and Mss/Segment sums the words
--                   of a TCP segment. Loops: RunUpstream and RunDownstream of bridge.go.
--   Hub             internal/hub/hub.go. Switch: Hub, Join, Leave, Forward, MACTableSnapshot and
--                   purgeMACTable. Manager: Manager. Learning, Clients, Delivery: proofs.
--   Transport       internal/transport. Tcp: Send and Recv of tcp.go. Hello: the ClientHello parser
--                   of reality_hello.go, with proofs in its children.
--   Config          internal/config/config.go. Defaults: WithDefaults of the FEC and UDP settings
--                   and the Validate methods. Ports: samePort and MigrateClientConfig. Redundancy:
--                   proofs.
--   Link            Packet: a sealed packet behind its header, as both ends build and open it.
--   Server          cmd/supervpn-server/main.go. State: Session and Server. Start: what main builds.
--                   Admission: handleAuth. Incoming: handleData, handleFrag and handleRepair, and
--                   the delivery to a hub. Outgoing: sendFECData, sendFrag, sendFECRepair and the
--                   Send of a hub's client. Lifecycle: newSessionID, removeSession, cleanupSessions,
--                   handlePing, handleJoin and handleListHubs. Dispatch: handlePacket, serveStream
--                   and handleTCPConn2. Bans: the kicks and bans of the HTTP interface. Range: a
--                   loop over the sessions. Members, Removal: proofs.
--   Client          internal/vpnclient/client.go. Log: Logf. Address: ServerHost,
--                   deriveSecondaryAddr, resolveTCPAddr and wireHashHex. Login: authenticate.
--                   Connect: connectWithFallback. State: what runSession keeps. Outgoing: its
--                   sending closures, sendOnBoth and sendPing. Incoming: recvLoop.
--   EndToEnd        both ends together: Entry and Handshake, Upstream, Downstream and Keepalive.
--   Battery         internal/bmwbattery. Voltage: findVoltage and findVoltageFromEnd. Frame:
--                   writeFrame, readFrame and readDID. Status: Read and merge. Search, Plausible,
--                   Held: proofs.
--   Lab             a small server for the tests.
--   Update          Inband: processUpdateFrame and the loop of fetchInBand of
--                   internal/update/inband.go, and handleUpdateGet of cmd/supervpn-server/main.go with
--                   failing reads and replies.
--                   Transfer: proofs.
--
-- How the code is modelled. A byte slice is a list of numbers, and a machine integer is a number with its
-- wrap-around written out. A method that changes its receiver takes the state and returns the next one.
-- A function that may fail returns `Go`, where `panic` is an index out of range, or an Option where the
-- source returns nil. Times are nanoseconds that the caller passes in where the source reads the clock,
-- and a mutex is the atomicity of one step. A map is an association list; where the source iterates over
-- a map, the list's order stands for the order of the iteration.
--
-- Parameters. The AEAD of Crypto.Packet and the Reed-Solomon code of Fec.Shards are records of functions
-- with the documented laws that the code relies on. SHA-256 and HKDF are the functions of KeySource in
-- Crypto.Keys. Server.State collects in Outside what the server takes from elsewhere, among it bcrypt's
-- comparison of a password with a hash. Random numbers and salts are arguments. Callbacks that send are
-- Boolean functions that say whether the call succeeds, and so is a connection attempt in
-- Client.Connect.
--
-- The server and the client. A handler of the server takes the server's state and gives the next state
-- with a list of effects: packets sent on a path, connections closed, background work cancelled. A path
-- stands for the closure that answers a peer. One clock reading serves a whole step. The Send of a hub's
-- client looks its session up by id, where the source holds a pointer. The receiving loop of the client
-- works on the packets that arrive on one transport; the frames it passes on wait in `out`. The car that
-- the battery monitor asks is a function from a request to the bytes that arrive after it. An int that
-- may be negative is a ℤ of Base.Ints, and the conversion to an unsigned type keeps its low bits.
--
-- Fuel. fold_carry of Bridge.Mss takes 4 rounds for a sum of three 16-bit numbers, clamp_options one more
-- round than there are option bytes, of which a round passes one at least; both return
-- `err out_of_fuel` without it. pieces_of of Fragment.Split takes one round for each byte, since a piece
-- has one byte at least. The loops of Transport.Hello take the number of bytes left, of which a round
-- reads three at least. expire_loop of Fec.Decoder counts the distance to its threshold.
--
-- Not modelled: the random source, NewCipher's AES and bcrypt; the sockets, the TLS and Reality handshakes
-- of the transports and the goroutines around them, among them the flush of stale blocks to the hub; the
-- outer loop of the client with its backoff and keepalive timeout; the loading of configuration and ban
-- files, the status page and the update mirror of the server; the download of updates over HTTP, the
-- diagnostic gateway of internal/zgw, the drivers of pkg/tun and the user interfaces.
pub mod Base
pub mod Battery
pub mod Bridge
pub mod Client
pub mod Config
pub mod Crypto
pub mod EndToEnd
pub mod Fec
pub mod Fragment
pub mod Hub
pub mod Lab
pub mod Link
pub mod Proto
pub mod Server
pub mod Transport
pub mod Update
