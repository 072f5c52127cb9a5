-- ===== src/Examples/Session.antt =====
-- The network tests of src/lib.rs at concrete inputs.
use rustun.Prelude.{
  ℕ, ◌≡◌, refl, List, [], ◌∷◌, ◌++◌, Option, none, some, ok, done, Op, Async, ready, not_ready,
  nat_partial_eq, if◌then◌else◌, nat_beq, arith,
}
use rustun.Error.{ForeignErrorKind}
use rustun.Client.{ChannelDriver}
use rustun.Server.{ServerEnv, HandlerDriver}
use rustun.Server.Binding.{Rfc5389, binding_handler}
use rustun.Server.Servers.{TcpStack, TcpEnv, State, tcp_server, tcp_poll}
use rustun.Examples.Fixed.{fixed_on, fixed_on_laws}
use rustun.Server.Listens.{gives, is_idle}
use rustun.Stack.{UdpStack}
use rustun.Stack.Session.Run.{passed}
use rustun.Transport.{Transport}
use rustun.Transport.Udp.{UdpEnv}
use rustun.Transport.Udp.Builder.{from_millis}
use rustun.Stack.Link.{Item, Net, IsNet}
use rustun.Stack.Start.{
  Driver, basic_udp_client, udp_start, udp_server, basic_tcp_client, tcp_start,
}
use rustun.Stack.Session.{Endpoint, channel_at}
use rustun.Stack.Session.Answered.{Answered}
use rustun.Stack.Session.Udp.{stack, udp_endpoint, basic_udp_test, basic_udp_test-Answered}
use rustun.Stack.Session.Tcp.{
  tcp_client, tcp_accepted, accepted_stack, basic_tcp_test, basic_tcp_test-Answered,
}
use rustun.Examples.Toy.{ToyMessage, toy_codec, toy_codec_laws, list_queue, list_queue_timed}
use rustun.Examples.Server.{toy_rfc}

module _ (P : Type 0) where
  abbrev pub Socket : Type 0
  Socket = List (Item toy_codec P) × List (P × ToyMessage)

  abbrev pub take_first :
      List (Item toy_codec P) → Op ForeignErrorKind Socket (Async (Option (Item toy_codec P)))
  take_first [] s = done not_ready s
  take_first (x ∷ xs) s = done (ready (some x)) (xs, s.1)

  abbrev pub socket : Transport toy_codec P
  socket = record {
    State = Socket;
    start_send = λ now peer m s. done tt (s.0, s.1 ++ (peer, m) ∷ []);
    poll_send = λ now s. done (ready tt) s;
    poll_recv = λ now s. take_first s.0 s;
  }

  abbrev net : Net socket
  net = record { arrived = λ s. s.0; sent = λ s. s.1; arrive = λ x s. (s.0 ++ x ∷ [], s.1) }

  net_laws : IsNet socket net
  net_laws = record {
    start_send = λ now peer m s. ((s.0, s.1 ++ (peer, m) ∷ []), refl, refl, refl);
    poll_send = λ now s. (ready tt, (s, refl, refl, refl));
    recv_none = λ now s h. (s, ground (arith, h), h, refl);
    recv_some = λ now x xs s h. ((xs, s.1), ground (arith, h), refl, refl);
    arrived-arrive = λ x s. refl;
    sent-arrive = λ x s. refl;
  }

abbrev pub udp : UdpEnv
udp = record { codec = toy_codec; inner = socket ℕ; timeouts = list_queue _ }

-- The toy attribute of the peer 9.
abbrev as_9 : ℕ → Option ℕ
as_9 a = if nat_beq a 0x29 then some 9 else none

abbrev pub udp_stack : UdpStack
udp_stack = stack udp (list_queue (ℕ × ℕ)) 0

abbrev udp_end : Endpoint toy_codec
udp_end =
    udp_endpoint udp (list_queue (ℕ × ℕ)) 0 (list_queue_timed _) (list_queue_timed _) (net ℕ)
      (net_laws ℕ)

-- The client's address is 9, the server's 7; the polls are at 1 s, 1.1 s and 1.2 s.
basic_udp_test-Answered_example :
    (d : Driver udp_stack toy_rfc) × (e : HandlerDriver
      (udp_server udp_stack (Unit {0}) (binding_handler toy_codec ℕ (Unit {0}) toy_rfc)))
    × (basic_udp_client udp_stack toy_rfc 7 5 0 (ok ([], [])) ≡ ok d)
    × (udp_start udp_stack (binding_handler toy_codec ℕ (Unit {0}) toy_rfc) tt (ok ([], [])) ≡ ok e)
    × Answered toy_codec toy_codec_laws udp_end udp_end
        (Unit {0})
        toy_rfc
        toy_rfc
        7
        9
        5
        0
        as_9
        2
        2
        1_000_000_000
        1_100_000_000
        1_200_000_000
        d
        e
    × (basic_udp_test udp
          (list_queue (ℕ × ℕ))
          0
          (list_queue_timed _)
          (list_queue_timed _)
          (net ℕ)
          (net_laws ℕ)
          toy_codec_laws
          (Unit {0})
          toy_rfc
          (λ s. 7)
          9
          5
          0
          2
          2
          1_000_000_000
          1_100_000_000
          1_200_000_000
          (ok ([], []))
          (ok ([], []))
        ≡ passed)
unfolding from_millis
basic_udp_test-Answered_example =
    basic_udp_test-Answered udp (list_queue (ℕ × ℕ)) 0 (list_queue_timed _) (list_queue_timed _)
      (net ℕ) (net_laws ℕ) toy_codec_laws (Unit {0}) toy_rfc as_9 (λ s. 7) 9 5 0 0 0 1_000_000_000
      1_100_000_000 1_200_000_000 1_200_000_000 ([], []) ([], []) (omega arith) (omega arith)
      (omega arith) (omega arith) refl refl refl refl

abbrev tcp_rfc : Rfc5389 toy_codec (Unit {0})
tcp_rfc = record { binding = 1; xor_mapped_address = λ peer. 0x20; bad_request = tt }

abbrev tcp_endpoint_client : Endpoint toy_codec
tcp_endpoint_client =
    tcp_client toy_codec toy_codec_laws (socket (Unit {0})) (socket (Unit {0})) (list_queue _)
      (list_queue_timed _) (net (Unit {0})) (net_laws (Unit {0})) (net (Unit {0}))
      (net_laws (Unit {0})) nat_partial_eq (fixed_on (socket (Unit {0})))
      (fixed_on_laws (socket (Unit {0}))) (list_queue _) (list_queue_timed _) 9

abbrev tcp_endpoint_server : Endpoint toy_codec
tcp_endpoint_server =
    tcp_accepted toy_codec toy_codec_laws (socket (Unit {0})) (socket (Unit {0})) (list_queue _)
      (list_queue_timed _) (net (Unit {0})) (net_laws (Unit {0})) (net (Unit {0}))
      (net_laws (Unit {0})) nat_partial_eq (fixed_on (socket (Unit {0})))
      (fixed_on_laws (socket (Unit {0}))) (list_queue _) (list_queue_timed _) 9

abbrev connections : TcpStack
connections =
    accepted_stack toy_codec toy_codec_laws (socket (Unit {0})) (socket (Unit {0})) (list_queue _)
      (list_queue_timed _) (net (Unit {0})) (net_laws (Unit {0})) (net (Unit {0}))
      (net_laws (Unit {0})) nat_partial_eq (fixed_on (socket (Unit {0})))
      (fixed_on_laws (socket (Unit {0}))) (list_queue _) (list_queue_timed _) 9

abbrev connection : ServerEnv
connection = tcp_server connections (Unit {0}) (binding_handler toy_codec ℕ (Unit {0}) toy_rfc)

abbrev Stream : Type 0
Stream = Socket (Unit {0})

abbrev take_stream : List Stream → Op ForeignErrorKind (List Stream) (Async (Option Stream))
take_stream [] l = done not_ready l
take_stream (x ∷ xs) l = done (ready (some x)) xs

abbrev listener : TcpEnv connections (Unit {0}) (binding_handler toy_codec ℕ (Unit {0}) toy_rfc)
listener = record {
  Listener = List Stream;
  Factory = Unit {0};
  poll = λ now l. take_stream l l;
  peer_addr = λ s. 9;
  create = λ f. (tt, f);
}

-- The polls are at 1 s, 1 s, 2 s and 30 s.
basic_tcp_test-Answered_example :
    (d : Option (ChannelDriver (channel_at tcp_endpoint_client))) × (e : HandlerDriver connection)
    × (server : State connections listener) × (polled : State connections listener)
    × (basic_tcp_client toy_codec
          (socket (Unit {0}))
          (list_queue (Unit {0} × ℕ))
          tcp_rfc
          5
          0
          (ok ([], []))
        ≡ ok d)
    × (tcp_start connections listener tt (ok (([], []) ∷ [])) ≡ ok server)
    × (tcp_poll connections listener 2 1_000_000_000 server ≡ done not_ready polled)
    × (polled.spawned ≡ e ∷ [])
    × Answered toy_codec toy_codec_laws tcp_endpoint_client tcp_endpoint_server
        (Unit {0})
        tcp_rfc
        toy_rfc
        tt
        9
        5
        0
        as_9
        2
        2
        1_000_000_000
        2_000_000_000
        30_000_000_000
        d
        e
    × (basic_tcp_test toy_codec toy_codec_laws
          (socket (Unit {0}))
          (socket (Unit {0}))
          (list_queue _)
          (list_queue_timed _)
          (net (Unit {0}))
          (net_laws (Unit {0}))
          (net (Unit {0}))
          (net_laws (Unit {0}))
          nat_partial_eq
          (fixed_on (socket (Unit {0})))
          (fixed_on_laws (socket (Unit {0})))
          (list_queue _)
          (list_queue_timed _)
          9
          (Unit {0})
          tcp_rfc
          toy_rfc
          listener
          5
          0
          2
          2
          1_000_000_000
          1_000_000_000
          2_000_000_000
          30_000_000_000
          tt
          (ok (([], []) ∷ []))
          (ok ([], []))
        ≡ passed)
basic_tcp_test-Answered_example =
    basic_tcp_test-Answered toy_codec toy_codec_laws (socket (Unit {0})) (socket (Unit {0}))
      (list_queue _) (list_queue_timed _) (net (Unit {0})) (net_laws (Unit {0})) (net (Unit {0}))
      (net_laws (Unit {0})) nat_partial_eq (fixed_on (socket (Unit {0})))
      (fixed_on_laws (socket (Unit {0}))) (list_queue _) (list_queue_timed _) 9 (Unit {0}) tcp_rfc
      toy_rfc listener as_9 5 0 0 0 1_000_000_000 1_000_000_000 2_000_000_000 30_000_000_000
      30_000_000_000 ([], []) ([], []) tt (([], []) ∷ []) [] (gives ([], []) refl (is_idle refl))
      refl refl (omega arith) (omega arith) (omega arith) refl refl refl refl
