-- ===== src/Stack/Session/Asks.antt =====
-- The polls of a client with one `BINDING` call: src/client.rs, as in the tests of src/lib.rs.
use rustun.Prelude.{
  ℕ, suc, ◌+◌, ◌*◌, ◌≤◌, ◌<◌, ◌≡◌, refl, true, some, [], ◌∷◌, ok, done, not_ready, arith,
}
use rustun.Prelude.HashMap.{insert}
use rustun.Codec.{IsStunCodec, MessageClass}
use rustun.Message.Request
use rustun.Message.Request.{Request}
use rustun.Transport.{IsTimedQueue}
use rustun.Channel
use rustun.Channel.{ChannelEnv, Channel, Key, Exit, key_partial_eq, default}
use rustun.Client
use rustun.Client.{ChannelDriver, call}
use rustun.Client.Driver
use rustun.Client.Driver.{
  command_on, handle_command, drain, outstanding, poll_sends, poll_channel, receive_loop,
}
use rustun.Server.Binding.{Rfc5389}
use rustun.Stack.Link.{Link, IsLink}
use rustun.Stack.Link.Polls.{At, NoneDue, poll_recv-none, poll_send-none}
use rustun.Stack.Start.{call_binding}

module _ (env : ChannelEnv) (rfc : Rfc5389 env.codec env.PeerAddr) (peer : env.PeerAddr)
    (id reply : ℕ) where
  open env use {codec, PeerAddr}

  abbrev pub question : Request codec
  question = record { message = codec.new MessageClass.request rfc.binding id }

  abbrev pub request_timeout : ℕ
  request_timeout = 39_500 * 1_000_000

  abbrev pub key : Key env
  key = (peer, codec.transaction_id question.message)

  -- The driver before its first poll.
  abbrev pub calling : env.transport.State → ChannelDriver env
  calling t = record {
    channel = ok (Channel.new env t);
    commands = call peer question reply ∷ [];
    closed = true;
    forwards = [];
    exits = [];
    results = [];
  }

  pub call_binding-calling :
      (t : env.transport.State)
      → call_binding env rfc peer id reply (Channel.new env t) ≡ some (calling t)
  unfolding call_binding Client.new Client.client_call Client.send Request.new
  call_binding-calling t = refl

  -- A channel with the one transaction outstanding.
  abbrev pub outstanding_on : env.transport.State → env.timeouts.Queue → Channel env
  outstanding_on t q = record {
    transporter = t;
    timeout_queue = q;
    request_timeout = request_timeout;
    transactions = (key, (codec.method question.message, 0)) ∷ [];
    next_handle = 1;
    exits = [];
  }

  -- The driver after its first poll.
  abbrev pub asking : env.transport.State → env.timeouts.Queue → ChannelDriver env
  asking t q = record {
    channel = ok (outstanding_on t q);
    commands = [];
    closed = true;
    forwards = (0, reply) ∷ [];
    exits = [];
    results = [];
  }

  module _ (laws : IsStunCodec codec) (timed : IsTimedQueue env.timeouts) (l : Link env.transport)
      (link : IsLink env.transport l) where
    -- The first poll of the driver sends the request, and has nothing more to do.
    pub poll-asking :
        (fuel rounds now limit : ℕ) (t : env.transport.State)
        → now ≤ limit
        → l.Knows peer
        → l.Quiet now limit t
        → limit < now + request_timeout
        → l.Fresh now t
        → l.arrived t ≡ []
        → l.sent t ≡ []
        → (t' : env.transport.State) × (q : env.timeouts.Queue) × (Driver.poll env
              (suc fuel)
              (suc rounds)
              now
              (calling t)
            ≡ done not_ready (asking t' q))
          × At env timed l link limit [] ((peer, question.message) ∷ []) t' q
    unfolding Driver.poll drain handle_command command_on outstanding receive_loop poll_channel
        poll_sends Channel.outstanding_transactions Channel.call Channel.new insert
    poll-asking fuel rounds now limit t le known quiet patient fresh none_arrived none_sent =
        let (t1, e1, a1, b1, c1) =
          link.send_request now limit peer question.message t known
            (laws.class-new MessageClass.request rfc.binding id) fresh quiet in
        let q1 = env.timeouts.push now key request_timeout env.timeouts.new in
        let none_due : NoneDue env timed l link limit q1 = ground (
          arith,
          timed.due-push limit (λ _. true) now key request_timeout env.timeouts.new,
          timed.due-later limit (λ _. true) env.timeouts.new,
          timed.laws.count-new (λ _. true),
        ) in
        let (t2, q2, e2, at2) =
          poll_recv-none env timed l link rounds now limit ((peer, question.message) ∷ [])
            (outstanding_on t1 q1) le
            (ground (arith, a1, none_arrived), ground (arith, b1, none_sent), c1, none_due) in
        let (t3, a, e3, at3) =
          poll_send-none env timed l link now limit ((peer, question.message) ∷ [])
            (outstanding_on t2 q2) le at2 in
        (t3, q2, ground (arith, e1, e2, e3), at3)
