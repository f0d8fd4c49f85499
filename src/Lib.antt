-- ===== src/Lib.antt =====
-- Verification of the Gravital Share engine (the Rust crates under engine/crates).
--
-- The engine turns a phone into a SOCKS5 server and an HTTP proxy, or sends a phone's traffic
-- through such a server. The JVM starts and stops it (gravital-engine/src/jni_android.rs,
-- runner.rs). In client mode packets come from a TUN device (gravital-tun). The client loop
-- (runner.rs) parses each one (gravital-proto), feeds TCP packets to the userspace stack
-- (gravital-stack), hands DNS queries to the interceptor (gravital-dns) and drops the rest. The
-- stack gives every flow a virtual port in its NAT table, rewrites packets to and from that port
-- and lets smoltcp speak TCP; a new connection is relayed over SOCKS5 (gravital-socks). In server
-- mode the engine runs the SOCKS5 server and the HTTP proxy (gravital-http). The session automaton
-- (gravital-engine/src/session.rs) says which mode and phase the engine is in, and tells the JVM of
-- each transition.
--
-- Which file models which part:
--   Common     lists with native lengths, bytes, outcomes, addresses, maps, saturating numbers,
--              sockets that deliver segments, decimal texts, the events of an accept loop
--   Proto      gravital-proto/src: Checksum (checksum.rs), Ipv4, Ipv6 and Ip (ip.rs), Tcp, Udp,
--              Icmp
--   Stack      gravital-stack/src: Nat (nat.rs), Rewrite (rewrite.rs), Device (device.rs and
--              connection.rs), State and Core (stack.rs: Inner, and its cycle and interface)
--   Engine     gravital-engine/src: Session and Backoff (session.rs), Config (config.rs), Runner
--              and Json (the start and stop of runner.rs), Reply, Tun, Poll, Loop and Relay (its
--              client loop, and metrics.rs), Jni and FfiCode (jni_android.rs, error.rs); Dns and
--              LeakCheck are gravital-dns/src (interceptor.rs, resolver.rs, leak_check.rs)
--   Socks      gravital-socks/src: Stream (the byte stream, error.rs), Proto and Datagram
--              (proto.rs), Client (client.rs), Server and Udp (server.rs)
--   Http       gravital-http/src: Errors (error.rs), Target and Server (server.rs)
--   Tun        gravital-tun/src: Errors (error.rs), Device (device.rs), Platform (platform.rs)
--   UdpGw      gravital-udpgw/src: Frame (frame.rs), Mux (mux.rs)
--   Ffi        gravital-ffi/src: CApi (c_api.rs), JniApi (jni_api.rs)
--   Obs        gravital-obs/src: Event (event.rs, layer.rs), Sink (sink.rs, lib.rs), Mcp (mcp.rs)
--   Examples   the theorems at concrete inputs
--
-- A function of the source has a definition of the same name; a loop or a match inside it may be a
-- definition of its own, which its comment names. Conventions: a byte is a number below 256; a u16,
-- u32 or u64 is a natural number whose wrap-around is written out, where the source's release build
-- wraps. Indexing and slicing out of range is `panic` of Outcome; a Rust Result is Result; a `&mut`
-- buffer is a value that is returned. A hash map is an association list. A TCP connection is a
-- record of the bytes to come, what ends them, and the bytes written.
--
-- A task that runs beside others is cut at its waits: each stretch between two waits is a function
-- of the session, and Engine.Runner.Modes has the relation of every interleaving of their reads and
-- writes of the session. Engine.Session.Table has the documented table of transitions. A loop that
-- waits for the outside is a function of the list of what happens to it.
--
-- Bounds and fuel: the carry of a u32 sum is folded in at most three rounds. The search of the NAT
-- table gets one round for each of its 50,000 ports. `pump`, which moves the messages of a relay to
-- a socket, gets one round for each message in the channel at that time, and one more. The loop
-- that reads the head of an HTTP request gets one round for each of the 8192 bytes of its buffer,
-- since a round that goes on has read at least one. `drain` and `accept_all` of a tick get a round
-- for each element waiting and one more, `up_to_app` a round for each byte to come and one more.
-- The decimal text of a u16 has at most five digits, that of a length at most twenty.
--
-- Parameters stand for code outside the repository: httparse, `tokio::io::copy`, name resolution
-- and the upstream connections of the proxies (records Http.Server.Net and Socks.Server.Net),
-- the system calls on a descriptor (records Os and Kernel), serde's reading and writing of JSON,
-- the answers of the JVM, smoltcp (record Smoltcp), tokio's channels (record Mpsc), the exchange
-- with the DNS server, and `from_utf8_lossy` of the standard library. A lock is taken for the
-- whole of an operation, so operations on a locked state are sequences of steps. `dispatch` of the
-- session is the exception: it reads the state, releases the lock and writes later (settle of
-- Engine.Session), and the relation of Engine.Runner.Modes takes the two apart. The functions of
-- Engine.Runner describe calls between whose read and write no other thread writes the state.
--
-- Not modelled: timing and tokio's scheduling (what runs when, sleeping), the poisoning of a lock,
-- the Debug text of a state and the JSON text of the metrics. The Android and desktop applications
-- are other programs.
mod Examples
pub mod Common
pub mod Proto
pub mod Stack
pub mod Engine
pub mod Socks
pub mod UdpGw
pub mod Http
pub mod Tun
pub mod Ffi
pub mod Obs
