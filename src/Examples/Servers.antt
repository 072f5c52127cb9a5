-- ===== src/Examples/Servers.antt =====
-- Runs of the two servers.
use rustun.Prelude.{
  ℕ, ◌≡◌, refl, List, [], ◌∷◌, done, Op, Async, Option, some, none, ready, not_ready, arith,
  nat_partial_eq, ◌+◌,
}
use rustun.Error.{ForeignErrorKind}
use rustun.Transport.{Transport}
use rustun.Server.Binding.{binding_handler}
use rustun.Server.Servers.{TcpStack, TcpEnv, State, tcp_poll}
use rustun.Server.Listens.{has_ended, gives, ended, closed_by, Starts, tcp_poll-Listens}
use rustun.Examples.Toy.{toy_codec, list_queue}
use rustun.Examples.Fixed.{fixed_on, fixed_on_laws}
use rustun.Examples.Server.{toy_rfc}

-- A transporter that knows the address of its peer, and that no message arrives at.
abbrev silent : Transport toy_codec (Unit {0})
silent = record {
  State = ℕ;
  start_send = λ now peer m s. done tt s;
  poll_send = λ now s. done (ready tt) s;
  poll_recv = λ now s. done not_ready s;
}

abbrev connections : TcpStack
connections = record {
  codec = toy_codec;
  PeerAddr = ℕ;
  peer_partial_eq = nat_partial_eq;
  inner = silent;
  fixed = fixed_on silent;
  timeouts = list_queue _;
}

abbrev give : List ℕ → Op ForeignErrorKind (List ℕ) (Async (Option ℕ))
give [] l = done (ready none) l
give (x ∷ xs) l = done (ready (some x)) xs

-- A listener with a list of connections, after which it ends, and a factory that counts its handlers.
abbrev listener : TcpEnv connections (Unit {0}) (binding_handler toy_codec ℕ (Unit {0}) toy_rfc)
listener = record {
  Listener = List ℕ;
  Factory = ℕ;
  poll = λ now l. give l l;
  peer_addr = λ s. s;
  create = λ n. (tt, n + 1);
}

abbrev two_waiting : State connections listener
two_waiting = record { spawned = []; handler_factory = 0; listener = 4 ∷ 5 ∷ [] }

tcp_poll-Listens_example :
    (s : State connections listener) × (tcp_poll connections listener 3 20 two_waiting
      ≡ closed_by connections listener ended s)
    × Starts connections listener
        (fixed_on_laws silent)
        (4 ∷ 5 ∷ [])
        0
        s.handler_factory
        []
        s.spawned
    × (s.listener ≡ [])
tcp_poll-Listens_example =
    tcp_poll-Listens connections listener (fixed_on_laws silent) 3 20 (4 ∷ 5 ∷ []) ended []
      two_waiting (gives 4 refl (gives 5 refl (has_ended refl))) (omega arith)
