-- ===== src/Examples/Only.antt =====
-- A server over UDP with `BindingHandler` at a request.
use rustun.Prelude.{ℕ, ◌≡◌, refl, inr, Keeps, List, [], ◌∷◌, ok, nat_partial_eq}
use rustun.Server.{ServerEnv, HandlerDriver}
use rustun.Server.Answers.{binding_server}
use rustun.Stack.{udp_channel}
use rustun.Server
use rustun.Server.Driver
use rustun.Server.Only.{Posts, Only, Log, Logs, got, sent}
use rustun.Server.Only.Senders.{udp_sender, udp_sender-IsSender}
use rustun.Server.Only.Polls.{poll-Only}
use rustun.Channel
use rustun.Transport.Udp.Builder
use rustun.Examples.Channel.{binding}
use rustun.Transport.Udp.Builder.{from_millis}
use rustun.Stack.Link.{Item}
use rustun.Stack.Start.{udp_channel_on}
use rustun.Examples.Toy.{list_queue, toy_codec, toy_codec_laws, list_queue_laws}
use rustun.Examples.Server.{toy_rfc}
use rustun.Transport.{Transport}
use rustun.Transport.Udp.{UdpEnv}
use rustun.Stack.{UdpStack}
use rustun.Stack.Session.Udp.{stack}
use rustun.Error.{ForeignErrorKind}
use rustun.Prelude.{Option, some, Op, done, Async, ready, not_ready}

-- A socket with what has arrived and is not yet received, and the log.
abbrev Logged : Type 0
Logged = List (Item toy_codec ℕ) × Log toy_codec ℕ

abbrev take_first :
    List (Item toy_codec ℕ) → Op ForeignErrorKind Logged (Async (Option (Item toy_codec ℕ)))
take_first [] s = done not_ready s
take_first (x ∷ xs) s = done (ready (some x)) (xs, got x ∷ s.1)

abbrev logged_socket : Transport toy_codec ℕ
logged_socket = record {
  State = Logged;
  start_send = λ now peer m s. done tt (s.0, sent (peer, m) ∷ s.1);
  poll_send = λ now s. done (ready tt) s;
  poll_recv = λ now s. take_first s.0 s;
}

take_first-Logs :
    (l : List (Item toy_codec ℕ)) (s : Logged) → Logs (λ l x. x.1 ≡ l) s.1 (take_first l s)
take_first-Logs [] s = refl
take_first-Logs (x ∷ xs) s = refl

abbrev socket_posts : Posts logged_socket
socket_posts = record {
  log = λ s. s.1;
  start_send = λ now peer m s. inr refl;
  poll_send = λ now s. refl;
  poll_recv = λ now s. take_first-Logs s.0 s;
}

abbrev udp : UdpEnv
udp = record { codec = toy_codec; inner = logged_socket; timeouts = list_queue _ }

abbrev udp_stack : UdpStack
udp_stack = stack udp (list_queue (ℕ × ℕ)) 0

abbrev udp_server_env : ServerEnv
udp_server_env = binding_server (udp_channel udp_stack) (Unit {0}) toy_rfc

-- A server over UDP, at whose socket a request of the peer 9 has arrived.
abbrev asked_driver : HandlerDriver udp_server_env
asked_driver = Server.new tt (udp_channel_on udp_stack ((9, ok (binding 5).message) ∷ [], []))

poll-Only_example :
    Keeps
      (Only
        (udp_channel udp_stack)
        toy_codec_laws
        (Unit {0})
        toy_rfc
        (udp_sender udp (list_queue_laws _) 1 socket_posts)
        (udp_sender-IsSender udp (list_queue_laws _) 1 socket_posts))
      (Driver.poll udp_server_env 2 2 1_000_000_000 asked_driver)
unfolding udp_channel_on Builder.new Builder.finish Server.new Channel.new Channel.finish
poll-Only_example =
    poll-Only (udp_channel udp_stack) toy_codec_laws (Unit {0}) toy_rfc
      (udp_sender udp (list_queue_laws _) 1 socket_posts)
      (udp_sender-IsSender udp (list_queue_laws _) 1 socket_posts) 2 2 1_000_000_000 asked_driver
      (((refl, refl), tt), refl)
