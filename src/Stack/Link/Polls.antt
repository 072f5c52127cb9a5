-- ===== src/Stack/Link/Polls.antt =====
-- The polls of a channel on a transport that loses nothing, where no request times out:
-- src/channel.rs.
use rustun.Prelude.{
  ℕ, suc, ◌≤◌, ◌≡◌, refl, true, Option, none, some, List, [], ◌∷◌, ok, done, Async, ready,
  not_ready, arith,
}
use rustun.Prelude.HashMap.{contains_key}
use rustun.Codec.{MessageClass}
use rustun.Error.{ErrorKind}
use rustun.Message.Request
use rustun.Message.Request.{Request}
use rustun.Transport.{IsTimedQueue, popped}
use rustun.Channel.{ChannelEnv, Channel, ChannelOp, Key, key_partial_eq}
use rustun.Channel.Poll
use rustun.Channel.Receive.{request, handle_message, handle_request}
use rustun.Stack.Link.{Link, IsLink, Item}

module _ (env : ChannelEnv) (timed : IsTimedQueue env.timeouts) (l : Link env.transport)
    (laws : IsLink env.transport l) where
  open env use {codec, PeerAddr}
  open l use {arrived, sent, Calm}

  -- No entry of the queue falls due at `limit` or before.
  abbrev pub NoneDue : ℕ → env.timeouts.Queue → Type 0
  NoneDue limit q = timed.due limit (λ _. true) q ≡ 0

  -- What has arrived and what was sent, and nothing is sent again or times out up to `limit`.
  abbrev pub At :
      ℕ
      → List (Item codec PeerAddr)
      → List (PeerAddr × codec.Message)
      → env.transport.State
      → env.timeouts.Queue
      → Type 0
  At limit xs ys t q = (arrived t ≡ xs) × (sent t ≡ ys) × Calm limit t × NoneDue limit q

  timeout_round-none :
      (now : ℕ) (rest : ChannelOp env ErrorKind (Unit {0})) (o : Option (Key env))
      (ch : Channel env)
      → popped (λ _. true) o ≡ 0
      → Poll.timeout_round env now rest o ch ≡ done tt ch
  unfolding Poll.timeout_round
  timeout_round-none now rest none ch h = refl
  timeout_round-none now rest (some k) ch h = absurd (ground arith)

  handle_timeout-none :
      (rounds now limit : ℕ) (ch : Channel env)
      → now ≤ limit
      → NoneDue limit ch.timeout_queue
      → (q : env.timeouts.Queue) × (Poll.handle_timeout env (suc rounds) now ch
          ≡ done tt (record ch { timeout_queue = q }))
        × NoneDue limit q
  unfolding Poll.handle_timeout
  handle_timeout-none rounds now limit ch le h =
      let keep = λ (k : Key env). contains_key ⦃e = key_partial_eq env⦄ k ch.transactions in
      let (o, q) = env.timeouts.filter_pop now keep ch.timeout_queue in
      let few = timed.due-filter_pop limit (λ _. true) keep now ch.timeout_queue le in
      (q, timeout_round-none now _ o (record ch { timeout_queue = q }) (omega arith), omega arith)

  recv_loop-none :
      (rounds now limit : ℕ) (ys : List (PeerAddr × codec.Message)) (ch : Channel env)
      → now ≤ limit
      → At limit [] ys ch.transporter ch.timeout_queue
      → (t : env.transport.State) × (Poll.recv_loop env (suc rounds) now ch
          ≡ done not_ready (record ch { transporter = t }))
        × At limit [] ys t ch.timeout_queue
  unfolding Poll.recv_loop Poll.recv_round
  recv_loop-none rounds now limit ys ch le (a, b, c, d) =
      let (t, e, a', b', c') = laws.recv_none now limit ch.transporter a le c in
      (t, ground (arith, e), (a', ground (arith, b', b), c', d))

  -- A poll of a channel at which nothing has arrived.
  pub poll_recv-none :
      (rounds now limit : ℕ) (ys : List (PeerAddr × codec.Message)) (ch : Channel env)
      → now ≤ limit
      → At limit [] ys ch.transporter ch.timeout_queue
      → (t : env.transport.State) × (q : env.timeouts.Queue) × (Poll.poll_recv env
            (suc rounds)
            now
            ch
          ≡ done not_ready (record ch { transporter = t; timeout_queue = q }))
        × At limit [] ys t q
  unfolding Poll.poll_recv
  poll_recv-none rounds now limit ys ch le (a, b, c, d) =
      let (q, e, n) = handle_timeout-none rounds now limit ch le d in
      let (t, f, h) =
        recv_loop-none rounds now limit ys (record ch { timeout_queue = q }) le (a, b, c, n) in
      (t, q, ground (arith, e, f), h)

  -- A poll of a channel at which a request has arrived.
  pub poll_recv-request :
      (rounds now limit : ℕ) (peer : PeerAddr) (r : Request codec)
      (ys : List (PeerAddr × codec.Message)) (ch : Channel env)
      → now ≤ limit
      → codec.class r.message ≡ MessageClass.request
      → Request.from_message codec r.message ≡ ok r
      → At limit ((peer, ok r.message) ∷ []) ys ch.transporter ch.timeout_queue
      → (t : env.transport.State) × (q : env.timeouts.Queue) × (Poll.poll_recv env
            (suc rounds)
            now
            ch
          ≡ done
              (ready (some (peer, request r)))
              (record ch { transporter = t; timeout_queue = q }))
        × At limit [] ys t q
  unfolding Poll.poll_recv Poll.recv_loop Poll.recv_round Poll.recv_next handle_message
      handle_request
  poll_recv-request rounds now limit peer r ys ch le k f (a, b, c, d) =
      let (q, e, n) = handle_timeout-none rounds now limit ch le d in
      let (t, g, a', b', c') =
        laws.recv_some now limit (peer, ok r.message) [] ch.transporter a le c in
      (t, q, ground (arith, e, g, k, f), (a', ground (arith, b', b), c', n))

  -- A poll of a channel at which a message has arrived that is not for the caller.
  pub poll_recv-handled :
      (rounds now limit : ℕ) (peer : PeerAddr) (m : codec.Message)
      (ys : List (PeerAddr × codec.Message)) (ch : Channel env) (ch' : Channel env)
      → now ≤ limit
      → At limit ((peer, ok m) ∷ []) ys ch.transporter ch.timeout_queue
      → ((t : env.transport.State) (q : env.timeouts.Queue)
          → At limit [] ys t q
          → (t' : env.transport.State) × (handle_message env now peer
                (ok m)
                (record ch { transporter = t; timeout_queue = q })
              ≡ done none (record ch' { transporter = t'; timeout_queue = q }))
            × At limit [] ys t' q)
      → (t : env.transport.State) × (q : env.timeouts.Queue) × (Poll.poll_recv env
            (suc (suc rounds))
            now
            ch
          ≡ done not_ready (record ch' { transporter = t; timeout_queue = q }))
        × At limit [] ys t q
  unfolding Poll.poll_recv Poll.recv_loop Poll.recv_round Poll.recv_next
  poll_recv-handled rounds now limit peer m ys ch ch' le (a, b, c, d) handled =
      let (q, e, n) = handle_timeout-none (suc rounds) now limit ch le d in
      let (t, g, a', b', c') = laws.recv_some now limit (peer, ok m) [] ch.transporter a le c in
      let (t', h, at) = handled t q (a', ground (arith, b', b), c', n) in
      let (t'', i, at') =
        recv_loop-none rounds now limit ys (record ch' { transporter = t'; timeout_queue = q }) le
          at in
      (t'', q, ground (arith, e, g, h, i), at')

  -- The end of a round: nothing waits to be sent.
  pub poll_send-none :
      (now limit : ℕ) (ys : List (PeerAddr × codec.Message)) (ch : Channel env)
      → now ≤ limit
      → At limit [] ys ch.transporter ch.timeout_queue
      → (t : env.transport.State) × (a : Async (Unit {0})) × (Poll.poll_send env now ch
          ≡ done a (record ch { transporter = t }))
        × At limit [] ys t ch.timeout_queue
  unfolding Poll.poll_send
  poll_send-none now limit ys ch le (a, b, c, d) =
      let (x, (t, e, a', b', c')) = laws.poll_send now limit ch.transporter le c in
      (t, x, ground (arith, e), (ground (arith, a', a), ground (arith, b', b), c', d))
