-- ===== src/Stack/Session/Hears.antt =====
-- The polls of a client with one `BINDING` call when its response has arrived: src/client.rs, as in
-- the tests of src/lib.rs.
use rustun.Prelude.{
  ℕ, suc, ◌≤◌, ◌≡◌, refl, ap, ◌∙◌, true, none, some, List, [], ◌∷◌, ok, done, ready, not_ready,
  arith,
}
use rustun.Prelude.HashMap.{get}
use rustun.Codec.{IsStunCodec}
use rustun.Message.ErrorResponse.{Response}
use rustun.Transport.{IsTimedQueue}
use rustun.Channel
use rustun.Channel.{ChannelEnv, Channel, key_partial_eq, response_message}
use rustun.Channel.Receive.{handle_message}
use rustun.Channel.Steps.{end_with}
use rustun.Client.{ChannelDriver}
use rustun.Client.Driver
use rustun.Client.Driver.{drain, outstanding, poll_sends, poll_channel, receive_loop}
use rustun.Server.Answers.{Responds}
use rustun.Server.Binding.{Rfc5389}
use rustun.Stack.Link.{Link, IsLink}
use rustun.Stack.Link.Polls.{At, poll_recv-handled, poll_send-none}
use rustun.Stack.Exchange.{handle_message-Responds}
use rustun.Stack.Session.Asks.{question, key, request_timeout, outstanding_on, asking}

module _ (env : ChannelEnv) (rfc : Rfc5389 env.codec env.PeerAddr) (peer : env.PeerAddr)
    (id reply : ℕ) where
  open env use {codec, PeerAddr}

  -- The channel when the transaction has ended with the response.
  abbrev pub concluded_on : Response codec → env.transport.State → env.timeouts.Queue → Channel env
  concluded_on x t q = record {
    transporter = t;
    timeout_queue = q;
    request_timeout = request_timeout env rfc peer id reply;
    transactions = [];
    next_handle = 1;
    exits = (0, ok x) ∷ [];
  }

  -- The driver when the channel has the response.
  abbrev pub told : Response codec → env.transport.State → env.timeouts.Queue → ChannelDriver env
  told x t q = record {
    channel = ok (concluded_on x t q);
    commands = [];
    closed = true;
    forwards = (0, reply) ∷ [];
    exits = [];
    results = [];
  }

  module _ (laws : IsStunCodec codec) (timed : IsTimedQueue env.timeouts) (l : Link env.transport)
      (link : IsLink env.transport l) {ClientAddr : Type 0} (Future : Type 0)
      (rfc' : Rfc5389 codec ClientAddr) where
    outstanding-get :
        (t : env.transport.State) (q : env.timeouts.Queue)
        → let k = key env rfc peer id reply in
          get ⦃e = key_partial_eq env⦄ k (outstanding_on env rfc peer id reply t q).transactions
          ≡ some (codec.method (question env rfc peer id reply).message, 0)
    outstanding-get t q =
        let k = key env rfc peer id reply in ground (arith, (key_partial_eq env).eq_iff k k)

    end_with-outstanding :
        (x : Response codec) (t : env.transport.State) (q : env.timeouts.Queue)
        → end_with env
            (key env rfc peer id reply)
            0
            (ok x)
            (outstanding_on env rfc peer id reply t q)
          ≡ concluded_on x t q
    end_with-outstanding x t q =
        let k = key env rfc peer id reply in ground (arith, (key_partial_eq env).eq_iff k k)

    handle_message-concluded :
        (now limit : ℕ) (a : codec.Attribute) (x : Response codec)
        (ys : List (PeerAddr × codec.Message)) (t : env.transport.State) (q : env.timeouts.Queue)
        → now ≤ limit
        → Responds codec laws Future rfc' (question env rfc peer id reply) a x
        → At env timed l link limit [] ys t q
        → (t' : env.transport.State) × (handle_message env now peer
              (ok (response_message env x))
              (outstanding_on env rfc peer id reply t q)
            ≡ done none (concluded_on x t' q))
          × At env timed l link limit [] ys t' q
    handle_message-concluded now limit a x ys t q le responds (h, i, j, k) =
        let r = question env rfc peer id reply in
        let (t', e, h', i', j') =
          link.finish now limit peer (codec.transaction_id r.message) t le j in
        let f =
          handle_message-Responds env laws Future rfc' now peer r a x 0
            (outstanding_on env rfc peer id reply t q) t' responds (outstanding-get t q) e in
        (
          t',
          f ∙ ap (done none) (end_with-outstanding x t' q),
          (ground (arith, h', h), ground (arith, i', i), j', k),
        )

    -- The poll of the driver when the response has arrived.
    pub poll-told :
        (fuel rounds now limit : ℕ) (a : codec.Attribute) (x : Response codec)
        (ys : List (PeerAddr × codec.Message)) (t : env.transport.State) (q : env.timeouts.Queue)
        → now ≤ limit
        → Responds codec laws Future rfc' (question env rfc peer id reply) a x
        → At env timed l link limit ((peer, ok (response_message env x)) ∷ []) ys t q
        → (t' : env.transport.State) × (q' : env.timeouts.Queue) × (Driver.poll env
              (suc fuel)
              (suc (suc rounds))
              now
              (asking env rfc peer id reply t q)
            ≡ done not_ready (told x t' q'))
          × At env timed l link limit [] ys t' q'
    unfolding Driver.poll drain outstanding receive_loop poll_channel poll_sends
        Channel.outstanding_transactions
    poll-told fuel rounds now limit a x ys t q le responds at =
        let (t1, q1, e1, at1) =
          poll_recv-handled env timed l link rounds now limit peer (response_message env x) ys
            (outstanding_on env rfc peer id reply t q) (concluded_on x t q) le at
            (λ t q at. handle_message-concluded now limit a x ys t q le responds at) in
        let (t2, b, e2, at2) =
          poll_send-none env timed l link now limit ys (concluded_on x t1 q1) le at1 in
        (t2, q1, ground (arith, e1, e2), at2)

    -- The poll after that: the driver ends.
    pub poll-ends :
        (fuel rounds now : ℕ) (x : Response codec) (t : env.transport.State)
        (q : env.timeouts.Queue)
        → Driver.poll env fuel rounds now (told x t q) ≡ done (ready tt) (told x t q)
    unfolding Driver.poll drain outstanding Channel.outstanding_transactions
    poll-ends fuel rounds now x t q = refl
