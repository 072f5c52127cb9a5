-- ===== src/Examples/Inbox.antt =====
-- A channel on a transport that receives messages.
use rustun.Prelude.{
  ℕ, zero, suc, Option, some, List, [], ◌∷◌, Result, done, fail, Op, Async, ready, not_ready,
  nat_partial_eq, length, arith,
}
use rustun.Error.{ForeignErrorKind}
use rustun.Channel.{ChannelEnv}
use rustun.Channel.Drains.{Drains, Receives}
use rustun.Examples.Toy.{ToyMessage, toy_codec, list_queue}

-- A transport with messages that have arrived, and those that were sent. It refuses to send to the
-- peer 0.
abbrev pub Inbox : Type 0
Inbox = List (ℕ × Result ToyMessage ToyMessage) × List (ℕ × ToyMessage)

abbrev pub receive :
    List (ℕ × Result ToyMessage ToyMessage)
    → List (ℕ × ToyMessage)
    → Op ForeignErrorKind Inbox (Async (Option (ℕ × Result ToyMessage ToyMessage)))
receive [] sent s = done not_ready s
receive (m ∷ rest) sent s = done (ready (some m)) (rest, sent)

abbrev pub post : ℕ → ToyMessage → Op ForeignErrorKind Inbox (Unit {0})
post zero m s = fail ForeignErrorKind.invalid_input s
post (suc n) m (arrived, sent) = done tt (arrived, (suc n, m) ∷ sent)

abbrev pub inbox_channel : ChannelEnv
inbox_channel = record {
  codec = toy_codec;
  PeerAddr = ℕ;
  peer_partial_eq = nat_partial_eq;
  timeouts = list_queue (ℕ × ℕ);
  transport = record {
    transport = record {
      State = Inbox;
      start_send = λ now. post;
      poll_send = λ now s. done (ready tt) s;
      poll_recv = λ now s. receive s.0 s.1 s;
    };
    finish_transaction = λ now peer id s. done tt s;
  };
}

pub inbox-Receives :
    (now : ℕ) (t : Inbox)
    → Receives inbox_channel
        (λ s. length s.0)
        (length t.0)
        (inbox_channel.transport.poll_recv now t)
inbox-Receives now ([], sent) = omega arith
inbox-Receives now (m ∷ rest, sent) = omega arith

abbrev pub inbox_drains : Drains inbox_channel
inbox_drains = record {
  backlog = λ s. length s.0;
  receives = inbox-Receives;
  finish-Returns = λ now peer id t. tt;
  finishes = λ now n peer id t h. h;
}
