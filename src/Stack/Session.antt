-- ===== src/Stack/Session.antt =====
-- A client that makes one `BINDING` call, and a server with `BindingHandler`, on transports that lose
-- nothing: the network tests of src/lib.rs.
pub mod Asks
pub mod Hears
pub mod Serves
pub mod Run
pub mod Answered
pub mod Udp
pub mod Tcp
use rustun.Prelude.{ℕ, List, [], ok, err, PartialEq}
use rustun.Codec.{StunCodec}
use rustun.Transport.{StunTransport, TimeoutQueue, IsTimedQueue}
use rustun.Channel.{ChannelEnv}
use rustun.Client.{ChannelDriver}
use rustun.Server.{HandlerDriver}
use rustun.Server.Binding.{Rfc5389}
use rustun.Server.Answers.{binding_server}
use rustun.Stack.Link.{Link, IsLink, Item}

-- What an end of a connection is made of.
pub record Endpoint (c : StunCodec) : Type 1 where
  pub PeerAddr : Type 0
  pub peer_partial_eq : PartialEq PeerAddr
  pub transport : StunTransport c PeerAddr
  pub timeouts : TimeoutQueue (PeerAddr × ℕ)
  pub timed : IsTimedQueue timeouts
  pub link : Link transport
  pub laws : IsLink transport link

abbrev pub channel_at : {c : StunCodec} → Endpoint c → ChannelEnv
channel_at {c} e = record {
  codec = c;
  PeerAddr = e.PeerAddr;
  peer_partial_eq = e.peer_partial_eq;
  transport = e.transport;
  timeouts = e.timeouts;
}

module _ {c : StunCodec} (e : Endpoint c) where
  open e use {PeerAddr, link}

  -- The network delivers a message to the driver of a client, and what that has sent.
  abbrev pub client_receives :
      Item c PeerAddr → ChannelDriver (channel_at e) → ChannelDriver (channel_at e)
  client_receives x d = record d {
    channel = elim d.channel [
      | ok ch ↦ ok (record ch { transporter = link.arrive x ch.transporter })
      | err k ↦ err k
    ];
  }

  abbrev pub client_sent : ChannelDriver (channel_at e) → List (PeerAddr × c.Message)
  client_sent d = elim d.channel [ ok ch ↦ link.sent ch.transporter | err k ↦ [] ]

  module _ (Future : Type 0) (rfc : Rfc5389 c PeerAddr) where
    abbrev pub ServerDriver : Type 0
    ServerDriver = HandlerDriver (binding_server (channel_at e) Future rfc)

    -- The same, of the driver of a server with `BindingHandler`.
    abbrev pub server_receives : Item c PeerAddr → ServerDriver → ServerDriver
    server_receives x d = record d {
      channel = record d.channel { transporter = link.arrive x d.channel.transporter };
    }

    abbrev pub server_sent : ServerDriver → List (PeerAddr × c.Message)
    server_sent d = link.sent d.channel.transporter
