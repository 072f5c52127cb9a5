-- ===== src/Examples/Udp.antt =====
-- Runs of the UDP transporter.
use rustun.Prelude.{
  Keeps, ◌&&◌, not, nat_beq, ℕ, ◌≤◌, ◌<◌, arith, ◌≡◌, refl, true, false, [], ◌∷◌, ◌*◌, ◌-◌, done,
  duration_overflow, Panic,
}
use rustun.Prelude.HashMap.{insert}
use rustun.Prelude.HashSet
use rustun.Codec.{MessageClass}
use rustun.Transport.Peer
use rustun.Transport.Peer.{TimeoutEntry, PeerState, duration_limit, retransmit, allow_next_request}
use rustun.Transport.Udp.{
  UdpEnv, RetransmitTransporter, start_transaction, ensure_peer, start_with, waiting_time,
  send_request, drop_idle, handle_pending_request,
}
use rustun.Transport.Udp.Builder.{StunUdpTransporterBuilder, finish}
use rustun.Transport.Udp.Send.{start_send, finish_transaction, finish_with_peer}
use rustun.Transport.Udp.Invariant.{is_allow, is_retransmit}
use rustun.Transport.Udp.Finish.{outstanding, finish_transaction-outstanding}
use rustun.Transport.Udp.Pending.{DropsAll, finish_transaction-drops}
use rustun.Transport.Udp.Reach.{
  Reach, built, called, call, start_send_call, Reach-waiting, Reach-outstanding,
  call-ne-missing_key,
}
use rustun.Transport.Udp.Forgets.{start_send-finish_transaction}
use rustun.Transport.Udp.Backoff.{times_doubled, is_backoff, most_doublings, Reach-is_backoff}
use rustun.Transport.Udp.Rtos.{is_bad}
use rustun.Examples.Toy.{
  ToyMessage, toy_codec, log_transport, log_transport_laws, list_queue, list_queue_laws, count_list,
}

abbrev pub toy_udp : UdpEnv
toy_udp = record {
  codec = toy_codec;
  inner = log_transport;
  timeouts = list_queue (TimeoutEntry toy_codec);
}

abbrev pub binding_request : ℕ → ToyMessage
binding_request id = record {
  class = MessageClass.request;
  method = 1;
  transaction_id = id;
  attributes = [];
  unknown_attributes = [];
}

abbrev pub second : ℕ
second = 1_000_000_000

abbrev pub settings : StunUdpTransporterBuilder
settings = record {
  rto = second;
  rto_cache_duration = 600 * second;
  min_transaction_interval = second;
  max_outstanding_transactions = 10;
}

-- After a request with the id 1 to the peer 7, at 100 s.
abbrev pub sent_one : RetransmitTransporter toy_udp
sent_one = record {
  inner = (7, binding_request 1) ∷ [];
  timeout_queue = (101 * second, retransmit 7 (binding_request 1) (2 * second)) ∷ [];
  peers =
      (
        7,
        record {
          peer = 7;
          transactions = 1 ∷ [];
          pending_requests = [];
          waiting = false;
          last_transaction_start_time = 100 * second;
          current_rto = second;
          cached_rto = second;
        },
      )
      ∷ [];
  rto = second;
  rto_cache_duration = 600 * second;
  min_transaction_interval = second;
  max_outstanding_transactions = 10;
}

-- The functions that a run computes with.
unfoldable pub udp_code : Unit {0}
unfolding call finish start_send finish_transaction finish_with_peer start_transaction ensure_peer
    insert start_with Peer.new waiting_time send_request Peer.start_transaction Peer.double
    HashSet.insert HashSet.remove Peer.pending Peer.is_idle Peer.pop_loop Peer.pop_pending_request
    Peer.finish_transaction drop_idle handle_pending_request
udp_code = tt

Reach-sent_one : Reach toy_udp sent_one
unfolding udp_code
Reach-sent_one =
    called (start_send_call (100 * second) 7 (binding_request 1)) (built settings []) refl

-- A second request within the interval is kept back.
abbrev pub kept_back : RetransmitTransporter toy_udp
kept_back = record sent_one {
  timeout_queue =
      (101 * second, allow_next_request 7)
      ∷ (101 * second, retransmit 7 (binding_request 1) (2 * second))
      ∷ [];
  peers =
      (
        7,
        record {
          peer = 7;
          transactions = 1 ∷ [];
          pending_requests = binding_request 2 ∷ [];
          waiting = true;
          last_transaction_start_time = 100 * second;
          current_rto = second;
          cached_rto = second;
        },
      )
      ∷ [];
}

Reach-kept_back : Reach toy_udp kept_back
unfolding udp_code
Reach-kept_back = called (start_send_call (100 * second) 7 (binding_request 2)) Reach-sent_one refl

Reach-waiting_example : count_list (is_allow toy_udp 7) kept_back.timeout_queue ≡ 1
Reach-waiting_example =
    Reach-waiting toy_udp (list_queue_laws (TimeoutEntry toy_codec)) log_transport_laws 7
      Reach-kept_back

Reach-outstanding_example :
    (1 ≤ count_list (is_retransmit toy_udp 7 1) kept_back.timeout_queue) × (1 ≤ 10)
Reach-outstanding_example =
    Reach-outstanding toy_udp (list_queue_laws (TimeoutEntry toy_codec)) log_transport_laws 7 1
      Reach-kept_back refl refl

-- A retransmission timeout that cannot be doubled.
call-ne-missing_key_example : ◌≡◌ {A = Panic} duration_overflow duration_overflow
unfolding udp_code
call-ne-missing_key_example =
    call-ne-missing_key toy_udp (list_queue_laws (TimeoutEntry toy_codec)) log_transport_laws
      {t = finish toy_udp (record settings { rto = duration_limit - 1 }) []}
      (start_send_call (100 * second) 7 (binding_request 1)) duration_overflow
      (built (record settings { rto = duration_limit - 1 }) []) refl

finish_transaction-drops_example :
    (s : RetransmitTransporter toy_udp) × (finish_transaction toy_udp (105 * second) 7 1 kept_back
      ≡ done tt s)
    × DropsAll toy_udp 7 kept_back s
finish_transaction-drops_example =
    finish_transaction-drops toy_udp (105 * second) 7 1 kept_back (refl, tt)

finish_transaction-outstanding_example :
    Keeps
      (λ s.
        outstanding toy_udp 7 1 s
        ≡ (outstanding toy_udp 7 1 kept_back && not (nat_beq 7 7 && nat_beq 1 1)))
      (finish_transaction toy_udp (105 * second) 7 1 kept_back)
finish_transaction-outstanding_example =
    finish_transaction-outstanding toy_udp (105 * second) 7 1 7 1 kept_back

Reach-is_backoff_example :
    ((k : ℕ) × (k ≤ most_doublings) × (second ≡ times_doubled k second))
    × (second < duration_limit)
    × (count_list (is_bad toy_codec (is_backoff second)) kept_back.timeout_queue ≡ 0)
unfolding Reach-kept_back Reach-sent_one
Reach-is_backoff_example =
    Reach-is_backoff toy_udp (list_queue_laws (TimeoutEntry toy_codec)) 7 Reach-kept_back
      (omega arith) (omega arith) refl

start_send-finish_transaction_example :
    (s : RetransmitTransporter toy_udp) × (s' : RetransmitTransporter toy_udp) × (finish_transaction
        toy_udp
        (100 * second)
        7
        1
        sent_one
      ≡ done tt s)
    × (start_send toy_udp (100 * second) 7 (binding_request 2) s ≡ done tt s')
    × (s'.inner ≡ (7, binding_request 2) ∷ sent_one.inner)
    × (s'.timeout_queue
        ≡ (101 * second, retransmit 7 (binding_request 2) (2 * second)) ∷ sent_one.timeout_queue)
start_send-finish_transaction_example =
    start_send-finish_transaction toy_udp (100 * second) (100 * second) 7 1 _ (binding_request 2) _
      sent_one refl refl refl refl refl (omega arith) (omega arith) (omega arith)
