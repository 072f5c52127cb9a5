-- ===== src/Stack/Session/Udp.antt =====
-- The test `basic_udp_test` of src/lib.rs: a client and a server over UDP, on sockets that lose nothing.
use rustun.Prelude.{
  ℕ, suc, ◌+◌, ◌≤◌, ◌<◌, ◌≡◌, refl, true, nat_partial_eq, Option, Result, [], ok, arith, ap,
}
use rustun.Codec.{IsStunCodec}
use rustun.Error.{ForeignErrorKind}
use rustun.Transport.{TimeoutQueue, IsTimedQueue}
use rustun.Transport.Udp.{UdpEnv}
use rustun.Transport.Udp.Send.{udp_transport}
use rustun.Transport.Udp.Builder
use rustun.Transport.Udp.Builder.{
  from_millis, default_rto_ms, default_min_transaction_interval_ms, default,
}
use rustun.Server
use rustun.Server.{HandlerDriver}
use rustun.Server.Binding.{Rfc5389, binding_handler}
use rustun.Stack.{UdpStack, udp_channel}
use rustun.Stack.Link.{Net, IsNet}
use rustun.Stack.Link.Udp.{udp_link}
use rustun.Stack.Link.Udp.Calm.{udp_link-IsLink}
use rustun.Stack.Start.{
  Driver, basic_udp_client, udp_start, udp_local_addr, udp_server, bound, udp_channel_on,
  call_binding,
}
use rustun.Stack.Session.{Endpoint}
use rustun.Stack.Session.Answered.{Answered, call_binding-Answered, exchange-Answered}
use rustun.Stack.Session.Run.{exchange, TestEnd, passed, or_error, asserts}

-- A stack whose loop of `poll_send` has at least one round.
abbrev pub stack : UdpEnv → TimeoutQueue (ℕ × ℕ) → ℕ → UdpStack
stack udp timeouts sends = record { udp = udp; timeouts = timeouts; rounds = suc sends }

module _ (udp : UdpEnv) (timeouts : TimeoutQueue (ℕ × ℕ)) (sends : ℕ)
    (timed : IsTimedQueue udp.timeouts) (timed' : IsTimedQueue timeouts) (n : Net udp.inner)
    (net : IsNet udp.inner n) where
  open udp use {codec}

  abbrev pub udp_endpoint : Endpoint codec
  udp_endpoint = record {
    PeerAddr = ℕ;
    peer_partial_eq = nat_partial_eq;
    transport = udp_transport udp (suc sends);
    timeouts = timeouts;
    timed = timed';
    link = udp_link udp timed sends n;
    laws = udp_link-IsLink udp timed sends n net;
  }

  module _ (laws : IsStunCodec codec) (Future : Type 0) (rfc : Rfc5389 codec ℕ) where
    -- A new `StunUdpTransporter` sends its first request at once, if the minimum interval is over since
    -- the epoch.
    new-Fresh :
        (now : ℕ) (s : udp.inner.State)
        → from_millis default_min_transaction_interval_ms < now
        → udp_endpoint.link.Fresh now (Builder.new udp s)
    unfolding Builder.new Builder.finish default from_millis
    new-Fresh now s lt = (refl, timed.laws.count-new (λ _. true), lt, omega arith, omega arith)

    -- The test, on what the two binds yield. The server's address is that of its socket, and
    -- `client_addr` is that of the client's.
    unfoldable pub basic_udp_test :
        (udp.inner.State → ℕ)
        → (client_addr id reply fuel rounds t1 t2 t3 : ℕ) → Result udp.inner.State ForeignErrorKind
        → Result udp.inner.State ForeignErrorKind
        → TestEnd
    unfolding udp_start udp_local_addr basic_udp_client exchange
    basic_udp_test local_addr client_addr id reply fuel rounds t1 t2 t3 server_socket
          client_socket =
        or_error
          (udp_start (stack udp timeouts sends) (binding_handler codec ℕ Future rfc) tt
            server_socket)
          (λ server.
            let server_addr = udp_local_addr (stack udp timeouts sends) local_addr server in
            or_error
              (basic_udp_client (stack udp timeouts sends) rfc server_addr id reply client_socket)
              (λ client. asserts codec (
                exchange udp_endpoint udp_endpoint Future rfc server_addr client_addr reply fuel
                  rounds t1 t2 t3 client server)))

    -- The test `basic_udp_test` passes, on sockets that lose nothing and a clock that is past the
    -- minimum interval: the client's poll sends the request, the server's poll, when that has arrived,
    -- sends a success response with the address that it saw, and nothing else, and the client's poll,
    -- when that has arrived before the first RTO is over, gives it to the caller as the result of the
    -- call. Its one attribute is that address, which `get_attribute` returns, and the client's driver
    -- then ends.
    pub basic_udp_test-Answered :
        {T : Type 0} (try_as_ref : codec.Attribute → Option T) (local_addr : udp.inner.State → ℕ)
        (client_addr id reply fuel rounds t1 t2 t3 limit : ℕ) (s s' : udp.inner.State)
        → from_millis default_min_transaction_interval_ms < t1
        → t1 ≤ limit
        → t3 ≤ limit
        → limit < t1 + from_millis default_rto_ms
        → n.arrived s ≡ []
        → n.sent s ≡ []
        → n.arrived s' ≡ []
        → n.sent s' ≡ []
        → (d : Driver (stack udp timeouts sends) rfc) × (e : HandlerDriver
            (udp_server (stack udp timeouts sends) Future (binding_handler codec ℕ Future rfc)))
          × (basic_udp_client (stack udp timeouts sends) rfc (local_addr s') id reply (ok s) ≡ ok d)
          × (udp_start (stack udp timeouts sends) (binding_handler codec ℕ Future rfc) tt (ok s')
              ≡ ok e)
          × Answered codec laws udp_endpoint udp_endpoint Future rfc rfc
              (local_addr s')
              client_addr
              id
              reply
              try_as_ref
              (suc (suc fuel))
              (suc (suc rounds))
              t1
              t2
              t3
              d
              e
          × (basic_udp_test local_addr client_addr id reply
                (suc (suc fuel))
                (suc (suc rounds))
                t1
                t2
                t3
                (ok s')
                (ok s)
              ≡ passed)
    unfolding basic_udp_test basic_udp_client udp_start udp_local_addr bound udp_channel_on
        from_millis Builder.new Builder.finish default
    basic_udp_test-Answered try_as_ref local_addr client_addr id reply fuel rounds t1 t2 t3 limit s
          s' spaced le1 le3 quick arrived sent arrived' sent' =
        let d =
          call_binding (udp_channel (stack udp timeouts sends)) rfc (local_addr s') id reply
            (udp_channel_on (stack udp timeouts sends) s) in
        let e : HandlerDriver
            (udp_server (stack udp timeouts sends) Future (binding_handler codec ℕ Future rfc)) =
          Server.new tt (udp_channel_on (stack udp timeouts sends) s') in
        let answered =
          call_binding-Answered codec laws udp_endpoint udp_endpoint Future rfc rfc (local_addr s')
            client_addr id reply try_as_ref fuel rounds t1 t2 t3 limit (Builder.new udp s)
            (Builder.new udp s') refl le1 le3 tt tt quick (omega arith) (new-Fresh t1 s spaced)
            arrived sent
            (udp_endpoint.laws.Fresh-Calm t1 t2 (Builder.new udp s') (new-Fresh t1 s' spaced))
            arrived' sent' in
        let (m, heard) =
          exchange-Answered codec laws udp_endpoint udp_endpoint Future rfc rfc (local_addr s')
            client_addr id reply try_as_ref (suc (suc fuel)) (suc (suc rounds)) t1 t2 t3 d e
            answered in
        (d, e, refl, refl, answered, ap (asserts codec) heard)
