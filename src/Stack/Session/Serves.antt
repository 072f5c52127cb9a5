-- ===== src/Stack/Session/Serves.antt =====
-- The poll of a server with `BindingHandler` at which a request has arrived: src/server.rs, as in the
-- tests of src/lib.rs.
use rustun.Prelude.{
  ℕ, suc, ◌≤◌, ◌≡◌, ◌≢◌, true, false, List, [], ◌∷◌, ◌++◌, ok, done, not_ready, arith,
}
use rustun.Codec.{MessageClass}
use rustun.Message.Request
use rustun.Message.Request.{Request}
use rustun.Message.ErrorResponse.{Response}
use rustun.Transport.{IsTimedQueue}
use rustun.Channel
use rustun.Channel.{ChannelEnv, Channel, response_message}
use rustun.Server.{HandlerDriver, reply}
use rustun.Server.Binding.{Rfc5389, handle_call}
use rustun.Server.Answers.{binding_server}
use rustun.Server.Driver
use rustun.Server.Driver.{
  did, on_received, handle_message, handle_request, act_on_call, send_response, after_received,
  poll_round, poll_next,
}
use rustun.Stack.Link.{Link, IsLink}
use rustun.Stack.Link.Polls.{At, poll_recv-none, poll_recv-request, poll_send-none}

module _ (env : ChannelEnv) (Future : Type 0) (rfc : Rfc5389 env.codec env.PeerAddr) where
  open env use {codec, PeerAddr}

  abbrev pub serving_on : env.transport.State → env.timeouts.Queue → Channel env
  serving_on t q = record (Channel.new env t) { timeout_queue = q }

  -- A driver with nothing to do.
  abbrev pub serving :
      env.transport.State → env.timeouts.Queue → HandlerDriver (binding_server env Future rfc)
  serving t q = record { spawned = []; handler = tt; channel = serving_on t q; response_rx = [] }

  module _ (timed : IsTimedQueue env.timeouts) (l : Link env.transport)
      (link : IsLink env.transport l) where
    abbrev Sent : Type 0
    Sent = List (PeerAddr × codec.Message)

    -- A round in which nothing arrives.
    poll_round-idle :
        (rounds now limit : ℕ) (ys : Sent) (t : env.transport.State) (q : env.timeouts.Queue)
        → now ≤ limit
        → At env timed l link limit [] ys t q
        → (t' : env.transport.State) × (q' : env.timeouts.Queue) × (poll_round
              (binding_server env Future rfc)
              (suc rounds)
              now
              (serving t q)
            ≡ done (did false) (serving t' q'))
          × At env timed l link limit [] ys t' q'
    unfolding poll_round on_received after_received send_response Channel.new
    poll_round-idle rounds now limit ys t q le at =
        let (t1, q1, e1, at1) =
          poll_recv-none env timed l link rounds now limit ys (serving_on t q) le at in
        let (t2, a, e2, at2) =
          poll_send-none env timed l link now limit ys (serving_on t1 q1) le at1 in
        (t2, q1, ground (arith, e1, e2), at2)

    -- A round in which a request arrives that the handler answers.
    poll_round-answers :
        (rounds now limit : ℕ) (peer : PeerAddr) (r : Request codec) (x : Response codec)
        (ys : Sent) (t : env.transport.State) (q : env.timeouts.Queue)
        → now ≤ limit
        → l.Knows peer
        → codec.class r.message ≡ MessageClass.request
        → Request.from_message codec r.message ≡ ok r
        → handle_call codec PeerAddr Future rfc peer r ≡ reply x
        → codec.class (response_message env x) ≢ MessageClass.request
        → At env timed l link limit ((peer, ok r.message) ∷ []) ys t q
        → (t' : env.transport.State) × (q' : env.timeouts.Queue) × (poll_round
              (binding_server env Future rfc)
              (suc rounds)
              now
              (serving t q)
            ≡ done (did true) (serving t' q'))
          × At env timed l link limit [] (ys ++ (peer, response_message env x) ∷ []) t' q'
    unfolding poll_round on_received handle_message handle_request act_on_call Channel.reply
        after_received send_response Channel.new
    poll_round-answers rounds now limit peer r x ys t q le known k f action other at =
        let (t1, q1, e1, (a1, b1, c1, d1)) =
          poll_recv-request env timed l link rounds now limit peer r ys (serving_on t q) le k f
            at in
        let (t2, e2, a2, b2, c2) =
          link.send_other now limit peer (response_message env x) t1 known other le c1 in
        let zs = ys ++ (peer, response_message env x) ∷ [] in
        let (t3, a, e3, at3) =
          poll_send-none env timed l link now limit zs (serving_on t2 q1) le
            (ground (arith, a2, a1), ground (arith, b2, b1), c2, d1) in
        (t3, q1, ground (arith, e1, action, e2, e3), at3)

    -- The poll of the driver when a request has arrived that the handler answers.
    pub poll-answers :
        (fuel rounds now limit : ℕ) (peer : PeerAddr) (r : Request codec) (x : Response codec)
        (ys : Sent) (t : env.transport.State) (q : env.timeouts.Queue)
        → now ≤ limit
        → l.Knows peer
        → codec.class r.message ≡ MessageClass.request
        → Request.from_message codec r.message ≡ ok r
        → handle_call codec PeerAddr Future rfc peer r ≡ reply x
        → codec.class (response_message env x) ≢ MessageClass.request
        → At env timed l link limit ((peer, ok r.message) ∷ []) ys t q
        → (t' : env.transport.State) × (q' : env.timeouts.Queue) × (Driver.poll
              (binding_server env Future rfc)
              (suc (suc fuel))
              (suc rounds)
              now
              (serving t q)
            ≡ done not_ready (serving t' q'))
          × At env timed l link limit [] (ys ++ (peer, response_message env x) ∷ []) t' q'
    unfolding Driver.poll poll_next Channel.new
    poll-answers fuel rounds now limit peer r x ys t q le known k f action other at =
        let (t1, q1, e1, at1) =
          poll_round-answers rounds now limit peer r x ys t q le known k f action other at in
        let (t2, q2, e2, at2) =
          poll_round-idle rounds now limit (ys ++ (peer, response_message env x) ∷ []) t1 q1 le
            at1 in
        (t2, q2, ground (arith, e1, e2), at2)
