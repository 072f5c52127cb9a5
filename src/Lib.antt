-- ===== src/Lib.antt =====
-- Verification of rustun, a library for STUN clients and servers (RFC 5389).
--
-- The program is a stack of layers. A transporter sends and receives STUN messages: over UDP it sends
-- requests again until they are answered. A channel keeps the outstanding transactions of an owner and
-- matches responses to them. Clients and servers are built on channels.
--
-- Files and code:
-- - Error.antt: src/error.rs. An error is its kind.
-- - Message.antt and Message/: src/message.rs. Laws, Roundtrip and
--   Attributes hold the proofs.
-- - Transport.antt: src/transport/mod.rs, the traits, as records of operations on a state.
-- - Transport/Peer.antt: src/transport/udp.rs, PeerState and TimeoutEntry.
-- - Transport/Udp.antt, Udp/Send.antt, Udp/Builder.antt: src/transport/udp.rs, RetransmitTransporter,
--   StunUdpTransporter and their builder. Udp/Invariant.antt and below, Udp/Reach.antt,
--   Udp/Pending.antt, Udp/Finish.antt, Udp/Held.antt, Udp/Rtos.antt and what is below them,
--   Udp/Rounds.antt, Udp/Backoff.antt and Udp/Forgets.antt hold the proofs.
-- - Channel.antt, Channel/Receive.antt, Channel/Poll.antt: src/channel.rs. Steps, Replies,
--   Reach, Matches, Timed, Timeouts, Expiry, Drains, Below and Panics hold the proofs; Spec is an
--   abstract specification that the channel refines.
-- - Transport/Tcp.antt: src/transport/tcp.rs, and FixedPeerTransporter in src/transport/mod.rs.
-- - Client.antt, Client/Driver.antt: src/client.rs. Calls,
--   Replies, Replay, Reach and Ends hold the proofs.
-- - Server.antt, Server/Driver.antt, Server/Binding.antt, Server/Servers.antt: src/server.rs. Answers,
--   Errors, Idle, Listens, Only, Serves and what is below it hold the proofs.
-- - Stack.antt, Stack/Start.antt: the layers put together, as in start of src/server.rs and in the
--   tests of src/lib.rs. Exchange, Held, Reach, Rounds and Panics hold the proofs.
-- - Stack/Link.antt and below: transports on a network that loses nothing. Stack/Session.antt and below:
--   the tests of src/lib.rs as a whole, on such transports.
-- - Stack/Programs.antt: examples/binding_cli.rs and examples/binding_srv.rs. Cli holds the proofs.
-- - Prelude.antt and Prelude/: shared names, the standard library's maps and sets, outcomes.
-- - Examples.antt and Examples/: concrete parameters, and the theorems at concrete inputs.
--
-- How code becomes definitions. A method on `&mut self` is a function from the state to an `Outcome`:
-- a value and the new state, an error and the new state, a panic, or `running` for a loop that has
-- used up its rounds. Times are in nanoseconds, and the time of a call is its argument `now`; within
-- one call the clock stands still. `Duration` overflows at 2^64 seconds, where the code panics.
-- Transaction ids, methods, attribute types and socket addresses are only compared: they are numbers.
-- The loops take a number of rounds; where they are bounded, the theorem on termination says by what.
--
-- Parameters. The crates stun_codec (Codec.antt), fibers_transport and fibers_timeout_queue
-- (Transport.antt, Transport/Tcp.antt) are records of operations, each with a record of the documented
-- behaviour that the theorems rely on. Examples/Toy.antt and
-- Examples/Fixed.antt have an instance of each.
--
-- Futures and channels between them. A oneshot channel is a handle, and what came through it is an
-- entry of a list. A future that is given to the spawner is a note of it: the future of a call of a
-- client is the pair of the handles that it connects, and a future of a handler is opaque.
--
-- References. What is done through a reference that a method returns (as_mut, transporter_mut,
-- inner_mut) is an argument of the method's definition.
--
-- Reachable states. A channel's are those by call, cast, reply, poll_send and poll_recv: what an owner
-- may do to the transporter by transporter_mut is not among these steps.
--
-- Not modelled: the causes and the tracking histories of errors, and the Debug texts that Rust derives.
-- What binding a transporter to an address yields, the addresses of a host, the parsing of a command
-- line and the executor of futures are arguments.
pub mod Prelude
pub mod Codec
pub mod Error
pub mod Transport
pub mod Message
pub mod Channel
pub mod Server
pub mod Client
pub mod Stack
pub mod Examples
