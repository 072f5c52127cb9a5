-- ===== src/Examples/Channel.antt =====
-- Runs of the channel.
use rustun.Prelude.{
  ℕ, ◌+◌, ◌≤◌, Keeps, ok, ◌≡◌, refl, [], ◌∷◌, err, some, done, not_ready, nat_partial_eq, arith,
}
use rustun.Prelude.HashMap.{insert, Unique}
use rustun.Codec.{MessageClass}
use rustun.Error.{MessageErrorKind}
use rustun.Message.Request
use rustun.Message.Request.{Request}
use rustun.Transport.{StunTransport, Returns}
use rustun.Channel.{ChannelEnv, Channel, ChannelBuilder, finish, call, key_partial_eq}
use rustun.Channel.Poll.{handle_timeout, poll_recv, timeout_round, time_out, recv_loop, recv_round}
use rustun.Channel.Replies.{count_waiting, count_exits}
use rustun.Channel.Matches.{Follows, poll_recv-Follows}
use rustun.Channel.Reach.{
  Reach, built, used, call_use, poll_recv_use, use_channel, Reach-Answered, Reach-Timed,
}
use rustun.Channel
use rustun.Channel.Spec.{Refines, empty, Reach-Refines}
use rustun.Channel.Drains.{poll_recv-Returns}
use rustun.Channel.Expiry
use rustun.Channel.Expiry.{ReachBy, poll_recv-expires}
use rustun.Examples.Inbox.{inbox_channel, inbox_drains}
use rustun.Examples.Toy.{toy_codec, log_transport, list_queue, list_queue_laws, list_queue_timed}

-- A transport that has nothing to do for a finished transaction.
abbrev log_stun_transport : StunTransport toy_codec ℕ
log_stun_transport = record {
  transport = log_transport;
  finish_transaction = λ now peer id s. done tt s;
}

abbrev pub toy_channel : ChannelEnv
toy_channel = record {
  codec = toy_codec;
  PeerAddr = ℕ;
  peer_partial_eq = nat_partial_eq;
  transport = log_stun_transport;
  timeouts = list_queue (ℕ × ℕ);
}

abbrev builder : ChannelBuilder
builder = record { request_timeout = 50 }

abbrev pub binding : ℕ → Request toy_codec
binding id = record {
  message = record {
    class = MessageClass.request;
    method = 1;
    transaction_id = id;
    attributes = [];
    unknown_attributes = [];
  };
}

-- After a call at 10, and one with the same peer and id, which is refused.
abbrev pub conflicting : Channel toy_channel
conflicting = record {
  transporter = (7, (binding 5).message) ∷ [];
  timeout_queue = (60, (7, 5)) ∷ [];
  request_timeout = 50;
  transactions = ((7, 5), (1, 0)) ∷ [];
  next_handle = 2;
  exits = (1, err (some MessageErrorKind.invalid_input)) ∷ [];
}

channel_code : Unit {0}
unfolding use_channel call finish insert Request.transaction_id Request.method Request.into_message
    poll_recv handle_timeout timeout_round time_out recv_loop recv_round
channel_code = tt

Reach-conflicting : Reach toy_channel conflicting
unfolding channel_code
Reach-conflicting =
    used (call_use 11 7 (binding 5)) (used (call_use 10 7 (binding 5)) (built builder []) refl) refl

Reach-Answered_example :
    Unique ⦃e = key_partial_eq toy_channel⦄ conflicting.transactions
    × (count_waiting toy_channel 1 conflicting + count_exits 1 conflicting.exits ≡ 1)
Reach-Answered_example = Reach-Answered toy_channel 1 Reach-conflicting

Reach-Timed_example :
    1
    ≤ (list_queue_laws (ℕ × ℕ)).count
        (λ k. (key_partial_eq toy_channel).eq k (7, 5))
        conflicting.timeout_queue
Reach-Timed_example = Reach-Timed toy_channel (list_queue_laws (ℕ × ℕ)) 7 5 Reach-conflicting refl

-- The transaction times out at 60: its call gets a `Timeout`.
timed_out :
    use_channel toy_channel (poll_recv_use 3 60) conflicting
    ≡ some (record conflicting {
      timeout_queue = [];
      transactions = [];
      exits =
          (0, err (some MessageErrorKind.timeout))
          ∷ (1, err (some MessageErrorKind.invalid_input))
          ∷ [];
    })
unfolding channel_code
timed_out = refl

-- A call is outstanding, and a response with its id and method has arrived.
abbrev answered : Channel inbox_channel
answered = record {
  transporter = (
    (
      7,
      ok (record {
        class = MessageClass.success_response;
        method = 1;
        transaction_id = 5;
        attributes = 0x27 ∷ [];
        unknown_attributes = [];
      }),
    )
        ∷ [],
    (7, (binding 5).message) ∷ [],
  );
  timeout_queue = (60, (7, 5)) ∷ [];
  request_timeout = 50;
  transactions = ((7, 5), (1, 0)) ∷ [];
  next_handle = 1;
  exits = [];
}

poll_recv-Follows_example :
    Keeps (Follows inbox_channel answered) (poll_recv inbox_channel 3 20 answered)
poll_recv-Follows_example = poll_recv-Follows inbox_channel 3 20 answered

Reach-Refines_example : Refines toy_channel (empty toy_channel) conflicting
Reach-Refines_example = Reach-Refines toy_channel Reach-conflicting

ReachBy-conflicting : ReachBy toy_channel 61 conflicting
unfolding channel_code
ReachBy-conflicting =
    Expiry.used (call_use 11 7 (binding 5)) (omega arith)
      (Expiry.used (call_use 10 7 (binding 5)) (omega arith) (Expiry.built builder []) refl) refl

abbrev all_answered : Channel toy_channel
all_answered = record conflicting {
  timeout_queue = [];
  transactions = [];
  exits =
      (0, err (some MessageErrorKind.timeout))
      ∷ (1, err (some MessageErrorKind.invalid_input))
      ∷ [];
}

poll_recv-expires_example :
    (Channel.outstanding_transactions toy_channel all_answered ≡ 0)
    × (count_exits 1 all_answered.exits ≡ 1)
unfolding channel_code
poll_recv-expires_example =
    poll_recv-expires toy_channel (list_queue_timed (ℕ × ℕ)) 3 61 1 conflicting all_answered
      not_ready ReachBy-conflicting refl

poll_recv-Returns_example : Returns (poll_recv inbox_channel 2 20 answered)
poll_recv-Returns_example =
    poll_recv-Returns inbox_channel (list_queue_laws (ℕ × ℕ)) inbox_drains 2 20 answered
      (omega arith) (omega arith)
