-- ===== src/Stack/Session/Tcp.antt =====
-- The test `basic_tcp_test` of src/lib.rs: a client over TCP, and the driver that the server starts for
-- its connection, on streams that lose nothing.
use rustun.Prelude.{
  ℕ, suc, ◌+◌, ◌≤◌, ◌<◌, ◌≡◌, ◌∙◌, refl, unit_partial_eq, Option, Result, List, arith, not_ready,
  [], ◌∷◌, ok, done, PartialEq,
}
use rustun.Codec.{StunCodec, IsStunCodec}
use rustun.Transport.{Transport, TimeoutQueue, IsTimedQueue}
use rustun.Transport.Tcp
use rustun.Transport.Tcp.{tcp_transport, FixedPeerTransporter, IsFixedPeer, fixed_peer_transport}
use rustun.Channel
use rustun.Client.{ChannelDriver}
use rustun.Server
use rustun.Server.{ServerEnv, HandlerDriver}
use rustun.Server.Binding.{Rfc5389, binding_handler}
use rustun.Server.Servers.{TcpStack, TcpEnv, State, tcp_server, accept, tcp_poll}
use rustun.Stack.Link.{Net, IsNet}
use rustun.Stack.Link.Tcp.{tcp_link, tcp_link-IsLink, fixed_link, fixed_link-IsLink}
use rustun.Stack.Start.{tcp_start, basic_tcp_client, bound, call_binding}
use rustun.Stack.Session.{Endpoint, channel_at}
use rustun.Stack.Session.Asks.{request_timeout}
use rustun.Stack.Session.Answered.{Answered, call_binding-Answered, exchange-Answered}
use rustun.Stack.Session.Run.{exchange, TestEnd, passed, waiting, or_error, asserts}
use rustun.Server.Listens.{Listens, idle, tcp_poll-accept_all}
use rustun.Error.{ForeignErrorKind}

module _ (c : StunCodec) (laws : IsStunCodec c) (inner inner' : Transport c (Unit {0}))
    (timeouts : TimeoutQueue (Unit {0} × ℕ)) (timed : IsTimedQueue timeouts) (n : Net inner)
    (net : IsNet inner n) (n' : Net inner') (net' : IsNet inner' n') {P : Type 0}
    (peer_partial_eq : PartialEq P) (f : FixedPeerTransporter (tcp_transport c inner') P)
    (fixed : IsFixedPeer f) (timeouts' : TimeoutQueue (P × ℕ)) (timed' : IsTimedQueue timeouts')
    (client_addr : P) where
  abbrev pub tcp_client : Endpoint c
  tcp_client = record {
    PeerAddr = Unit {0};
    peer_partial_eq = unit_partial_eq;
    transport = tcp_transport c inner;
    timeouts = timeouts;
    timed = timed;
    link = tcp_link c inner n;
    laws = tcp_link-IsLink c inner n net;
  }

  -- What the server makes the channel of a connection of.
  abbrev pub accepted_stack : TcpStack
  accepted_stack = record {
    codec = c;
    PeerAddr = P;
    peer_partial_eq = peer_partial_eq;
    inner = inner';
    fixed = f;
    timeouts = timeouts';
  }

  -- The end of the server of the connection from `client_addr`: the network delivers to the inner
  -- transporter of the `FixedPeerTransporter`.
  abbrev pub tcp_accepted : Endpoint c
  tcp_accepted = record {
    PeerAddr = P;
    peer_partial_eq = peer_partial_eq;
    transport = fixed_peer_transport (tcp_transport c inner') f;
    timeouts = timeouts';
    timed = timed';
    link = fixed_link c inner' n' f fixed client_addr;
    laws = fixed_link-IsLink c inner' n' f fixed client_addr net';
  }

  module _ (Future : Type 0) (rfc : Rfc5389 c (Unit {0})) (rfc' : Rfc5389 c P)
      (tcp : TcpEnv accepted_stack Future (binding_handler c P Future rfc')) where
    abbrev pub server_env : ServerEnv
    server_env = tcp_server accepted_stack Future (binding_handler c P Future rfc')

    -- The test on the driver of the latest connection, if the server has one.
    abbrev pub on_latest :
        List (HandlerDriver server_env) → (HandlerDriver server_env → TestEnd) → TestEnd
    on_latest [] k = waiting
    on_latest (e ∷ rest) k = k e

    -- The test, on what the listening and the connecting yield: the server is polled at the time `t0`,
    -- when the connection is there, and then the driver that it has started.
    unfoldable pub basic_tcp_test :
        (id reply fuel rounds t0 t1 t2 t3 : ℕ)
        → tcp.Factory
        → Result tcp.Listener ForeignErrorKind
        → Result inner.State ForeignErrorKind
        → TestEnd
    unfolding tcp_start tcp_poll basic_tcp_client exchange
    basic_tcp_test id reply fuel rounds t0 t1 t2 t3 factory listened connected =
        or_error (tcp_start accepted_stack tcp factory listened) (λ server.
          elim (tcp_poll accepted_stack tcp rounds t0 server) [
            | done _ polled ↦
                or_error (basic_tcp_client c inner timeouts rfc id reply connected) (λ client.
                  on_latest polled.spawned (λ e. asserts c (
                    exchange tcp_client tcp_accepted Future rfc' tt client_addr reply fuel rounds t1
                      t2 t3 client e)))
            | _ ↦ waiting
          ])

    -- The test `basic_tcp_test` passes, on streams that lose nothing, if the listener has the client's
    -- connection, whose `peer_addr` is the address of the client, when the server is polled: the server
    -- starts a driver for it, on a `FixedPeerTransporter` of that address. The client's poll sends
    -- the request, the poll of that driver, when that has arrived, sends a success response with the
    -- address of the client, and nothing else, and the client's poll, when that has arrived before the
    -- request times out, gives it to the caller as the result of the call. Its one attribute is that
    -- address, which `get_attribute` returns, and the client's driver then ends.
    pub basic_tcp_test-Answered :
        {T : Type 0} (try_as_ref : c.Attribute → Option T)
        (id reply fuel rounds t0 t1 t2 t3 limit : ℕ) (s : inner.State) (stream : inner'.State)
        (factory : tcp.Factory) (l l' : tcp.Listener)
        → Listens accepted_stack tcp t0 (stream ∷ []) idle l l'
        → tcp.peer_addr stream ≡ client_addr
        → rfc.binding ≡ rfc'.binding
        → t1 ≤ limit
        → t3 ≤ limit
        → limit < t1 + request_timeout (channel_at tcp_client) rfc tt id reply
        → n.arrived s ≡ []
        → n.sent s ≡ []
        → n'.arrived stream ≡ []
        → n'.sent stream ≡ []
        → (d : Option (ChannelDriver (channel_at tcp_client))) × (e : HandlerDriver server_env)
          × (server : State accepted_stack tcp) × (polled : State accepted_stack tcp)
          × (basic_tcp_client c inner timeouts rfc id reply (ok s) ≡ ok d)
          × (tcp_start accepted_stack tcp factory (ok l) ≡ ok server)
          × (tcp_poll accepted_stack tcp (suc (suc rounds)) t0 server ≡ done not_ready polled)
          × (polled.spawned ≡ e ∷ [])
          × Answered c laws tcp_client tcp_accepted Future rfc rfc' tt client_addr id reply
              try_as_ref
              (suc (suc fuel))
              (suc (suc rounds))
              t1
              t2
              t3
              d
              e
          × (basic_tcp_test id reply
                (suc (suc fuel))
                (suc (suc rounds))
                t0
                t1
                t2
                t3
                factory
                (ok l)
                (ok s)
              ≡ passed)
    unfolding basic_tcp_test basic_tcp_client bound tcp_start accept Tcp.new
    basic_tcp_test-Answered try_as_ref id reply fuel rounds t0 t1 t2 t3 limit s stream factory l l'
          listens addr same le1 le3 patient arrived sent arrived' sent' =
        let d =
          call_binding (channel_at tcp_client) rfc tt id reply
            (Channel.new (channel_at tcp_client) s) in
        let t = f.new (tcp.peer_addr stream) tt (Tcp.new c inner' stream) in
        let e : HandlerDriver server_env =
          Server.new tt (Channel.new (channel_at tcp_accepted) t) in
        let server : State accepted_stack tcp = record {
          spawned = [];
          handler_factory = factory;
          listener = l;
        } in
        let polled : State accepted_stack tcp = record (accept accepted_stack tcp stream server) {
          listener = l';
        } in
        let poll =
          tcp_poll-accept_all accepted_stack tcp (suc (suc rounds)) t0 (stream ∷ []) idle l' server
            listens (omega arith) in
        let answered =
          call_binding-Answered c laws tcp_client tcp_accepted Future rfc rfc' tt client_addr id
            reply try_as_ref fuel rounds t1 t2 t3 limit s t same le1 le3 tt refl tt patient tt
            arrived sent (fixed.peer-new (tcp.peer_addr stream) tt stream ∙ addr)
            (cc (fixed.inner_ref-new (tcp.peer_addr stream) tt stream, arrived'))
            (cc (fixed.inner_ref-new (tcp.peer_addr stream) tt stream, sent')) in
        let (m, heard) =
          exchange-Answered c laws tcp_client tcp_accepted Future rfc rfc' tt client_addr id reply
            try_as_ref (suc (suc fuel)) (suc (suc rounds)) t1 t2 t3 d e answered in
        (d, e, server, polled, refl, refl, poll, refl, answered, ground (arith, poll, heard))
