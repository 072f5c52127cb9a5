-- ===== src/Stack.antt =====
-- The layers put together: channels over the UDP and the TCP transporter, as clients and servers use
-- them. src/server.rs `start`, and the programs of the repository.
pub mod Start
pub mod Programs
pub mod Cli
pub mod Exchange
pub mod Link
pub mod Session
pub mod Held
pub mod Reach
pub mod Rounds
pub mod Panics
use rustun.Prelude.{ℕ, nat_partial_eq}
use rustun.Transport.{TimeoutQueue}
use rustun.Transport.Udp.{UdpEnv}
use rustun.Transport.Udp.Send.{udp_transport}
use rustun.Channel.{ChannelEnv}
use rustun.Channel

-- What a channel over UDP takes from other crates. The loop of the transporter's `poll_send` is given
-- `rounds` rounds.
pub record UdpStack : Type 1 where
  pub udp : UdpEnv
  pub timeouts : TimeoutQueue (ℕ × ℕ)
  pub rounds : ℕ

-- `Channel<A, StunUdpTransporter<A, T>>`.
abbrev pub udp_channel : UdpStack → ChannelEnv
udp_channel u = record {
  codec = u.udp.codec;
  PeerAddr = ℕ;
  peer_partial_eq = nat_partial_eq;
  transport = udp_transport u.udp u.rounds;
  timeouts = u.timeouts;
}
