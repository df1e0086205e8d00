-- ===== src/Lib.antt =====
-- udp2raw-rust: a tunnel that carries UDP over raw packets.
--
-- A client and a server derive direction-bound keys from a password (src/crypto/mod.rs) and exchange
-- bare packets while they shake hands and safer packets afterwards (src/wire.rs). Every safer packet
-- carries a sequence number that the receiver's replay filter checks (src/anti_replay.rs). Which
-- address the client talks to is decided by its endpoint controller (src/endpoint.rs).
-- A connection (src/conn.rs) prepares and accepts safer packets, the pipeline (src/pipeline.rs)
-- encrypts and decrypts them on worker threads and keeps their order, and the raw connection
-- (src/faketcp.rs) puts them into IP packets (src/packet) with sequence numbers like TCP's.
-- Conversations (src/conv.rs) name the UDP flows that share a connection.
--
-- Files and code:
--   Prelude     shared names, tests on numbers, lists, bytes, exclusive or, saturating words
--   Util        src/util.rs: byte order, serial comparison, constant-time equality,
--               hexadecimal text (`Util/Hex`), the buffer pool (`Util/Pool`)
--   AntiReplay  src/anti_replay.rs: `AntiReplay` is the struct, `is_valid` the filter's step
--   Wire        src/wire.rs: framing; `Wire/Gro` is the splitting of merged packets
--   Crypto      src/crypto/{mod,cipher,auth,aead}.rs: `derive`, `with_backend`, `encrypt`, `decrypt`
--   Packet      src/packet: the Internet checksum and the IP, UDP, ICMP and TCP headers; a builder
--               gives the bytes that the code appends, and `none` where the code panics
--   FakeTcp     src/faketcp.rs: `PacketInfo`, `RawInfo` and `RawCtx` are the structs, `Send` and `Recv`
--               the two directions; random numbers and the time are arguments
--   Conv        src/conv.rs: `ConvManager`, its maps as association lists
--   Conn        src/conn.rs: `ConnInfo`, `prepare_safer`, `encrypt_safer`, `accept_safer` and the calls
--               that compose them; `Sent` is a panic, an error or the new states
--   Pipeline    src/pipeline.rs: `Pipeline` with its channels as lists; `Pipeline/System` runs the event
--               loop's calls and the threads' steps in any order, over an arbitrary job function
--   Types       src/types.rs: `RawMode`, `Syscalls`, addresses
--   Dns         src/dns.rs: `check_endpoint_ip`, `canonicalize_answer`
--   Endpoint    src/endpoint.rs: `Backoff`, `Budget` (the durable probe budget) and `Controller`,
--               whose `Select` and `Cycle` are `on_cycle_with_clock` and `select`, and whose
--               `Lifecycle` is authentication, packets, promotion and rollback requests
--
-- Numbers are natural numbers, with wrapping and saturation written where the code has them. A byte
-- string is a list of numbers; `AreBytes` says that each is below 256. A method on `&mut self` returns
-- the new state. Clocks, random numbers and the contents of files are arguments.
--
-- Bounds: `gro_unwrap` runs on fuel, the length of the buffer, and each round consumes a packet with
-- its prefix; the loop over the TCP options runs on its number of bytes, since each round drops at
-- least one (`Packet/Tcp/Options` has its runs without fuel); `cbc_encrypt` and `cbc_decrypt` run once for each block; `collect` runs once for each
-- batch in flight and an expiry pass once for each entry it may inspect. Times are below 2^62 where
-- a theorem says so, which keeps the saturating sums exact.
--
-- An address is its number. `select` charges the budget file at most twice in a call, so it takes the
-- two states of the file as arguments.
--
-- A vector's capacity matters only to the buffer pool; elsewhere a reused buffer is a fresh one.
--
-- Not modelled: the primitive hashes and ciphers (parameters of `Primitives`, with the laws that
-- `IsSound` lists), sockets, routes, files, the event loops, configuration and the DNS resolver.
pub mod Prelude
pub mod Util
pub mod AntiReplay
pub mod Wire
pub mod Crypto
pub mod Packet
pub mod FakeTcp
pub mod Conv
pub mod Conn
pub mod Pipeline
pub mod Types
pub mod Dns
pub mod Endpoint
