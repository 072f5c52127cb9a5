-- ===== src/Examples/Client.antt =====
-- Runs of the client's driver.
use rustun.Prelude.{
  ◌≤◌, ◌≡◌, refl, true, false, none, some, [], ◌∷◌, ok, err, done, running, ready, not_ready, Keeps,
  nat_partial_eq,
}
use rustun.Error.{ErrorKind}
use rustun.Message.Indication.{Indication}
use rustun.Codec.{MessageClass}
use rustun.Channel
use rustun.Channel.Poll
use rustun.Message.Request
use rustun.Prelude.HashMap.{insert}
use rustun.Channel.{ChannelEnv, Channel}
use rustun.Client
use rustun.Client.{Command, call, cast, ChannelDriver, client_call, client_cast, send}
use rustun.Client.Driver.{
  poll, drain, handle_command, command_on, outstanding, receive_loop, poll_channel, poll_sends,
}
use rustun.Client.Replies.{count_waits, count_answers}
use rustun.Client.Reach.{Reach, started, sent, polled, Reach-answers}
use rustun.Client.Calls.{count_calls, poll-count_calls}
use rustun.Client.Replay.{left, replay, drain-replay}
use rustun.Client.Ends.{poll-ready, poll-Ended, poll-refused}
use rustun.Examples.Toy.{toy_codec, log_transport}
use rustun.Examples.Channel.{toy_channel, binding, conflicting}

abbrev notice : Indication toy_codec
notice = record {
  message = record {
    class = MessageClass.indication;
    method = 1;
    transaction_id = 8;
    attributes = [];
    unknown_attributes = [];
  };
}

-- A call with the handle 4, an indication, and a call with the handle 6 wait.
abbrev waiting_driver : ChannelDriver toy_channel
waiting_driver = record {
  channel = ok conflicting;
  commands = call 7 (binding 5) 4 ∷ cast 7 notice ∷ call 9 (binding 6) 6 ∷ [];
  closed = false;
  forwards = [];
  exits = [];
  results = [];
}

client_code : Unit {0}
unfolding client_call client_cast send Client.new poll drain handle_command command_on outstanding
client_code = tt

-- The driver after the calls of a client.
waiting_driver_sent :
    let d = Client.new toy_channel conflicting in
    let d1 = (client_call toy_channel 7 (binding 5) 4 (some d)).1 in
    let d2 = (client_cast toy_channel 7 notice d1).1 in
    (client_call toy_channel 9 (binding 6) 6 d2).1 ≡ some waiting_driver
unfolding client_code
waiting_driver_sent = refl

poll-count_calls_example :
    Keeps
      (λ s. count_calls toy_channel 4 s ≡ count_calls toy_channel 4 waiting_driver)
      (poll toy_channel 3 3 20 waiting_driver)
poll-count_calls_example = poll-count_calls toy_channel 4 3 3 20 waiting_driver

drain-replay_example :
    left toy_channel (drain toy_channel 20 waiting_driver.commands waiting_driver)
    ≡ replay toy_channel 20 waiting_driver.commands conflicting
drain-replay_example =
    drain-replay toy_channel 20 waiting_driver.commands waiting_driver conflicting refl

-- The channel was given up, and the clients have dropped.
abbrev given_up : ChannelDriver toy_channel
given_up = record waiting_driver { channel = err ErrorKind.other; closed = true }

abbrev ended : ChannelDriver toy_channel
ended = record given_up {
  commands = [];
  exits = (6, err (some ErrorKind.other)) ∷ (4, err (some ErrorKind.other)) ∷ [];
}

given_up-poll : poll toy_channel 3 3 20 given_up ≡ done (ready tt) ended
unfolding client_code
given_up-poll = refl

poll-ready_example :
    (ended.closed ≡ true) × (ended.commands ≡ []) × (outstanding toy_channel ended ≡ 0)
poll-ready_example = poll-ready toy_channel 3 3 20 given_up ended given_up-poll

poll-refused_example :
    poll toy_channel 3 3 20 (record waiting_driver { channel = err ErrorKind.other })
    ≡ done not_ready (record waiting_driver {
      channel = err ErrorKind.other;
      commands = [];
      exits = (6, err (some ErrorKind.other)) ∷ (4, err (some ErrorKind.other)) ∷ [];
    })
poll-refused_example = poll-refused toy_channel 2 3 20 ErrorKind.other waiting_driver

-- A transport whose connection was closed by the peer.
abbrev closed_channel : ChannelEnv
closed_channel = record toy_channel {
  transport = record {
    transport = record log_transport { poll_recv = λ now s. done (ready none) s };
    finish_transaction = λ now peer id s. done tt s;
  };
}

-- A call made at 10 is outstanding.
abbrev closed_by_peer : Channel closed_channel
closed_by_peer = record {
  transporter = (7, (binding 5).message) ∷ [];
  timeout_queue = (60, (7, 5)) ∷ [];
  request_timeout = 50;
  transactions = ((7, 5), (1, 0)) ∷ [];
  next_handle = 1;
  exits = [];
}

abbrev closed_driver : ChannelDriver closed_channel
closed_driver = record {
  channel = ok closed_by_peer;
  commands = [];
  closed = false;
  forwards = (0, 4) ∷ [];
  exits = [];
  results = [];
}

poll-Ended_example : poll closed_channel 1000 4 20 closed_driver ≡ running
poll-Ended_example = poll-Ended closed_channel 1000 3 20 closed_by_peer closed_driver (refl, refl)

-- A driver that has taken over a call with the handle 4 and started its transaction.
abbrev awaiting : ChannelDriver toy_channel
awaiting = record {
  channel = ok (record {
    transporter = (7, (binding 5).message) ∷ [];
    timeout_queue = (60, (7, 5)) ∷ [];
    request_timeout = 50;
    transactions = ((7, 5), (1, 0)) ∷ [];
    next_handle = 1;
    exits = [];
  });
  commands = [];
  closed = false;
  forwards = (0, 4) ∷ [];
  exits = [];
  results = [];
}

run_code : Unit {0}
unfolding client_code receive_loop poll_channel poll_sends Channel.finish Channel.call insert
    Request.transaction_id Request.method Request.into_message Poll.poll_recv Poll.handle_timeout
    Poll.timeout_round Poll.recv_loop Poll.recv_round Poll.poll_send
run_code = tt

Reach-awaiting : Reach toy_channel awaiting
unfolding run_code
Reach-awaiting =
    polled 3 3 10 (sent (call 7 (binding 5) 4) (started (record { request_timeout = 50 }) []) refl)
      refl

Reach-answers_example :
    (count_waits toy_channel 0 awaiting.forwards ≡ count_answers toy_channel 0 awaiting)
    × (count_waits toy_channel 0 awaiting.forwards ≤ 1)
Reach-answers_example = Reach-answers toy_channel 0 Reach-awaiting
