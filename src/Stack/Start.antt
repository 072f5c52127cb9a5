-- ===== src/Stack/Start.antt =====
-- How servers and clients are put on a transporter that was bound: `UdpServer::start` and
-- `TcpServer::start` of src/server.rs, the client of examples/binding_cli.rs, and those of the tests of
-- src/lib.rs. What binding to an address yields is an argument.
use rustun.Prelude.{ℕ, true, Option, none, some, [], Result, ok, err, unit_partial_eq}
use rustun.Codec.{StunCodec}
use rustun.Error.{ErrorKind, ForeignErrorKind, error_from_transport}
use rustun.Message.Request
use rustun.Transport.{Transport, TimeoutQueue}
use rustun.Transport.Udp.Builder
use rustun.Transport.Tcp.{tcp_transport}
use rustun.Channel
use rustun.Channel.{ChannelEnv, Channel}
use rustun.Client
use rustun.Client.{ChannelDriver, client_call}
use rustun.Server
use rustun.Server.{ServerEnv, HandleMessage, HandlerDriver}
use rustun.Server.Binding.{Rfc5389}
use rustun.Server.Servers.{TcpStack, TcpEnv, State}
use rustun.Stack.{UdpStack, udp_channel}

-- `map_err(Error::from)` and `map`, of the future of a bound transporter.
unfoldable pub bound : {S A : Type 0} → (S → A) → Result S ForeignErrorKind → Result A ErrorKind
bound f (ok s) = ok (f s)
bound f (err e) = err (error_from_transport e)

module _ (u : UdpStack) where
  open u use {udp}

  -- `StunUdpTransporter::new` and `Channel::new`.
  unfoldable pub udp_channel_on : udp.inner.State → Channel (udp_channel u)
  unfolding Builder.new Channel.new
  udp_channel_on transporter = Channel.new (udp_channel u) (Builder.new udp transporter)

  abbrev pub udp_server : (F : Type 0) → HandleMessage udp.codec ℕ F → ServerEnv
  udp_server F handler = record { channel = udp_channel u; Future = F; handler = handler }

  -- `UdpServer::start`.
  unfoldable pub udp_start :
      {F : Type 0} (handler : HandleMessage udp.codec ℕ F)
      → handler.State
      → Result udp.inner.State ForeignErrorKind
      → Result (HandlerDriver (udp_server F handler)) ErrorKind
  unfolding bound udp_channel_on Server.new
  udp_start {F} handler s =
      bound (λ t. Server.new {env = udp_server F handler} s (udp_channel_on t))

  -- `UdpServer::local_addr`, by `local_addr` of the inner transporter.
  unfoldable pub udp_local_addr :
      {F : Type 0} {handler : HandleMessage udp.codec ℕ F}
      → (udp.inner.State → ℕ)
      → HandlerDriver (udp_server F handler)
      → ℕ
  unfolding Channel.transporter_ref Builder.inner_ref
  udp_local_addr local_addr driver =
      local_addr (Builder.inner_ref udp (Channel.transporter_ref (udp_channel u) driver.channel))

-- `TcpServer::start`.
unfoldable pub tcp_start :
    (k : TcpStack) {F : Type 0} {handler : HandleMessage k.codec k.PeerAddr F}
    (tcp : TcpEnv k F handler)
    → tcp.Factory
    → Result tcp.Listener ForeignErrorKind
    → Result (State k tcp) ErrorKind
unfolding bound
tcp_start k tcp handler_factory =
    bound
      (λ listener. record { spawned = []; handler_factory = handler_factory; listener = listener })

module _ (env : ChannelEnv) (rfc : Rfc5389 env.codec env.PeerAddr) where
  abbrev drop_client : Option (ChannelDriver env) → Option (ChannelDriver env)
  drop_client none = none
  drop_client (some d) = some (record d { closed = true })

  -- `Client::new`, and one call of the method `BINDING` with a random `id`. The client is dropped when
  -- it has sent its command.
  unfoldable pub call_binding : env.PeerAddr → ℕ → ℕ → Channel env → Option (ChannelDriver env)
  unfolding Client.new client_call Request.new
  call_binding peer id reply channel =
      let request = Request.new env.codec rfc.binding id in
      drop_client (client_call env peer request reply (some (Client.new env channel))).1

module _ (u : UdpStack) (rfc : Rfc5389 u.udp.codec ℕ) where
  open u use {udp}

  abbrev pub Driver : Type 0
  Driver = Option (ChannelDriver (udp_channel u))

  -- The client of `basic_udp_test`.
  unfoldable pub basic_udp_client :
      ℕ → ℕ → ℕ → Result udp.inner.State ForeignErrorKind → Result Driver ErrorKind
  unfolding bound udp_channel_on call_binding
  basic_udp_client server_addr id reply =
      bound (λ t. call_binding (udp_channel u) rfc server_addr id reply (udp_channel_on u t))

-- A channel over TCP: `Channel<A, StunTcpTransporter<T>>`.
abbrev pub tcp_channel :
    (c : StunCodec) → Transport c (Unit {0}) → TimeoutQueue (Unit {0} × ℕ) → ChannelEnv
tcp_channel c inner timeouts = record {
  codec = c;
  PeerAddr = Unit {0};
  peer_partial_eq = unit_partial_eq;
  transport = tcp_transport c inner;
  timeouts = timeouts;
}

-- The client of `basic_tcp_test`.
unfoldable pub basic_tcp_client :
    (c : StunCodec) (inner : Transport c (Unit {0})) (timeouts : TimeoutQueue (Unit {0} × ℕ))
    → Rfc5389 c (Unit {0})
    → ℕ
    → ℕ
    → Result inner.State ForeignErrorKind
    → Result (Option (ChannelDriver (tcp_channel c inner timeouts))) ErrorKind
unfolding bound call_binding Channel.new
basic_tcp_client c inner timeouts rfc id reply = bound (λ t.
    call_binding (tcp_channel c inner timeouts) rfc tt id reply
      (Channel.new (tcp_channel c inner timeouts) t))
