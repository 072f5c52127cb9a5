-- ===== src/Server/Servers.antt =====
-- src/server.rs, `UdpServer` and `TcpServer`, once they are bound.
use rustun.Prelude.{
  String, ℕ, zero, suc, Option, none, some, List, ◌∷◌, Op, done, fail, panic, running, Async, ready,
  not_ready, ◌>>=◌, PartialEq,
}
use rustun.Error.{ErrorKind, ForeignErrorKind, error_from_transport}
use rustun.Channel
use rustun.Channel.{ChannelEnv}
use rustun.Codec.{StunCodec}
use rustun.Transport.{Transport, TimeoutQueue}
use rustun.Transport.Tcp
use rustun.Transport.Tcp.{tcp_transport, FixedPeerTransporter, fixed_peer_transport}
use rustun.Server
use rustun.Server.{ServerEnv, HandlerDriver, HandleMessage}
use rustun.Server.Driver
use rustun.Server.Driver.{DriverOp}

module _ (env : ServerEnv) where
  -- `UdpServer::poll`: the end of the driver is an error.
  unfoldable pub udp_next : Async (Unit {0}) → DriverOp env (Async ⊥)
  udp_next (ready _) d = fail ErrorKind.other d
  udp_next not_ready d = done not_ready d

  unfoldable pub udp_poll : ℕ → ℕ → ℕ → DriverOp env (Async ⊥)
  udp_poll fuel rounds now = Driver.poll env fuel rounds now >>= udp_next

-- What the channel of a connection to a TCP server takes from other crates: `inner` is the
-- `TcpTransporter` of fibers_transport.
pub record TcpStack : Type 1 where
  pub codec : StunCodec
  pub PeerAddr : Type 0
  pub peer_partial_eq : PartialEq PeerAddr
  pub inner : Transport codec (Unit {0})
  pub fixed : FixedPeerTransporter (tcp_transport codec inner) PeerAddr
  pub timeouts : TimeoutQueue (PeerAddr × ℕ)

-- `Channel<A, FixedPeerTransporter<StunTcpTransporter<..>, SocketAddr>>`.
abbrev pub accepted_channel : TcpStack → ChannelEnv
accepted_channel k = record {
  codec = k.codec;
  PeerAddr = k.PeerAddr;
  peer_partial_eq = k.peer_partial_eq;
  transport = fixed_peer_transport (tcp_transport k.codec k.inner) k.fixed;
  timeouts = k.timeouts;
}

module _ (k : TcpStack) (Future : Type 0) (handler : HandleMessage k.codec k.PeerAddr Future) where
  abbrev pub tcp_server : ServerEnv
  tcp_server = record { channel = accepted_channel k; Future = Future; handler = handler }

  -- What `TcpServer` takes from elsewhere: the listener, `peer_addr` of a transporter that it gives, and
  -- the factory of handlers.
  pub record TcpEnv : Type 1 where
    pub Listener : Type 0
    pub Factory : Type 0
    pub poll : ℕ → Op ForeignErrorKind Listener (Async (Option k.inner.State))
    pub peer_addr : k.inner.State → k.PeerAddr
    pub create : Factory → handler.State × Factory

  -- The drivers that were given to the spawner, the latest first.
  pub record TcpServer (tcp : TcpEnv) : Type 0 where
    pub spawned : List (HandlerDriver tcp_server)
    pub handler_factory : tcp.Factory
    pub listener : tcp.Listener

module _ (k : TcpStack) {Future : Type 0} {handler' : HandleMessage k.codec k.PeerAddr Future}
    (tcp : TcpEnv k Future handler') where
  abbrev pub State : Type 0
  State = TcpServer k Future handler' tcp

  abbrev pub TcpOp : Type 0 → Type 0
  TcpOp A = Op ErrorKind State A

  -- The address of the listener.
  unfoldable pub tcp_local_addr :
      {SocketAddr : Type 0} → (tcp.Listener → SocketAddr) → State → SocketAddr
  tcp_local_addr local_addr s = local_addr s.listener

  -- `fmt::Debug` of a server.
  unfoldable pub debug : State → String
  debug s = "TcpServer { .. }"

  abbrev pub poll_listener : ℕ → TcpOp (Async (Option k.inner.State))
  poll_listener now s = elim (tcp.poll now s.listener) [
    | done a l ↦ done a (record s { listener = l })
    | fail e l ↦ fail (error_from_transport e) (record s { listener = l })
    | panic x ↦ panic x
    | running ↦ running
  ]

  -- A driver for a new connection.
  unfoldable pub accept : k.inner.State → State → State
  accept transporter s =
      let peer_addr = tcp.peer_addr transporter in
      let transporter = k.fixed.new peer_addr tt (Tcp.new k.codec k.inner transporter) in
      let channel = Channel.new (accepted_channel k) transporter in
      let (handler, factory) = tcp.create s.handler_factory in
      record s {
        handler_factory = factory;
        spawned = Server.new {env = tcp_server k Future handler'} handler channel ∷ s.spawned;
      }

  unfoldable pub tcp_next : TcpOp (Async ⊥) → Async (Option k.inner.State) → TcpOp (Async ⊥)
  tcp_next rest not_ready s = done not_ready s
  tcp_next rest (ready none) s = fail ErrorKind.other s
  tcp_next rest (ready (some stream)) s = rest (accept stream s)

  unfoldable pub tcp_poll : ℕ → ℕ → TcpOp (Async ⊥)
  tcp_poll zero now s = running
  tcp_poll (suc rounds) now s = (poll_listener now >>= tcp_next (tcp_poll rounds now)) s
