-- ===== src/Examples/Stack.antt =====
-- Runs of a channel over UDP, and of a caller and a server.
use rustun.Prelude.{
  ℕ, ◌*◌, ◌≡◌, refl, true, ok, done, none, some, [], ◌∷◌, nat_partial_eq, Option, if◌then◌else◌,
  nat_beq,
}
use rustun.Message.Request
use rustun.Message.ErrorResponse.{Response}
use rustun.Transport.Peer.{TimeoutEntry}
use rustun.Transport.Udp.{RetransmitTransporter}
use rustun.Transport.Udp.Send.{finish_transaction}
use rustun.Transport.Udp.Pending.{NoneIn, DropsAll}
use rustun.Channel
use rustun.Channel.{Channel, ChannelBuilder, response_message}
use rustun.Channel.Panics.{UsePanics}
use rustun.Stack.Panics.{Overflows, Reach-UsePanics}
use rustun.Channel.Reach.{poll_recv_use, call_use, use_channel}
use rustun.Channel.Poll
use rustun.Channel.Receive.{handle_message}
use rustun.Channel.Steps.{end_with}
use rustun.Server.{reply}
use rustun.Server.Binding.{handle_call}
use rustun.Stack.{UdpStack, udp_channel}
use rustun.Stack.Held.{waits}
use rustun.Stack.Reach.{Reach, built, used, Reach-held, Reach-drops}
use rustun.Stack.Exchange.{Tells, handle_message-handle_call}
use rustun.Examples.Toy.{toy_codec, toy_codec_laws, log_transport_laws, list_queue, list_queue_laws}
use rustun.Examples.Udp.{toy_udp, second, settings, kept_back, udp_code}
use rustun.Examples.Channel.{binding}
use rustun.Examples.Inbox.{inbox_channel}
use rustun.Examples.Server.{toy_rfc}

abbrev pub toy_stack : UdpStack
toy_stack = record { udp = toy_udp; timeouts = list_queue (ℕ × ℕ); rounds = 4 }

-- Two calls to the peer 7 at 100 s: the second request is kept back.
abbrev two_calls : Channel (udp_channel toy_stack)
two_calls = record {
  transporter = kept_back;
  timeout_queue = (110 * second, (7, 2)) ∷ (110 * second, (7, 1)) ∷ [];
  request_timeout = 10 * second;
  transactions = ((7, 2), (1, 1)) ∷ ((7, 1), (1, 0)) ∷ [];
  next_handle = 2;
  exits = [];
}

Reach-two_calls : Reach toy_stack two_calls
unfolding udp_code use_channel Channel.call Channel.finish Request.transaction_id Request.method
    Request.into_message
Reach-two_calls =
    used (call_use (100 * second) 7 (binding 2)) tt
      (used (call_use (100 * second) 7 (binding 1)) tt
        (built (record { request_timeout = 10 * second }) settings []) refl)
      refl

Reach-held_example :
    (waits toy_stack two_calls 7 2 ≡ true) × NoneIn toy_codec (1 ∷ []) ((binding 2).message ∷ [])
Reach-held_example = Reach-held toy_stack 7 2 Reach-two_calls refl refl

Reach-drops_example :
    (s : RetransmitTransporter toy_udp) × (finish_transaction toy_udp (105 * second) 7 1 kept_back
      ≡ done tt s)
    × DropsAll toy_udp 7 kept_back s
Reach-drops_example = Reach-drops toy_stack (105 * second) 7 1 Reach-two_calls

-- A call is outstanding, and the server's answer arrives.
abbrev asked : Channel inbox_channel
asked = record {
  transporter = ([], (7, (binding 5).message) ∷ []);
  timeout_queue = (60, (7, 5)) ∷ [];
  request_timeout = 50;
  transactions = ((7, 5), (1, 0)) ∷ [];
  next_handle = 1;
  exits = [];
}

-- The toy attribute of the type 32 as an address.
abbrev as_address : ℕ → Option ℕ
as_address a = if nat_beq a 32 then some a else none

handle_message-handle_call_example :
    (x : Response toy_codec) × (handle_call toy_codec ℕ (Unit {0}) toy_rfc 9 (binding 5) ≡ reply x)
    × Tells inbox_channel toy_codec_laws (Unit {0}) toy_rfc as_address 9 (binding 5) x
    × (handle_message inbox_channel 20 7 (ok (response_message inbox_channel x)) asked
        ≡ done none (end_with inbox_channel (7, 5) 0 (ok x) asked))
handle_message-handle_call_example =
    handle_message-handle_call inbox_channel toy_codec_laws (Unit {0}) toy_rfc 20 7 9 (binding 5) 0
      asked ([], (7, (binding 5).message) ∷ []) as_address refl refl

Reach-UsePanics_example :
    UsePanics (udp_channel toy_stack) Overflows (poll_recv_use 3 (120 * second)) two_calls
Reach-UsePanics_example =
    Reach-UsePanics toy_stack (list_queue_laws (TimeoutEntry toy_codec)) log_transport_laws
      (poll_recv_use 3 (120 * second)) Reach-two_calls
