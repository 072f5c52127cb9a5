-- ===== src/Transport/Udp/Forgets.antt =====
-- What a UDP transporter knows of a peer after its last transaction: src/transport/udp.rs,
-- `finish_transaction` and `handle_pending_request`.
use rustun.Prelude.{
  ℕ, ◌*◌, ◌≤◌, ◌<◌, ◌≡◌, refl, ap, ◌∙◌, false, none, some, List, [], ◌∷◌, done, arith,
  nat_partial_eq, nat_beq_iff,
}
use rustun.Prelude.HashMap.{get, get-insert, get-remove, insert}
use rustun.Prelude.HashSet
use rustun.Codec.{MessageClass}
use rustun.Transport.Peer
use rustun.Transport.Peer.{PeerState, duration_limit, retransmit}
use rustun.Transport.Udp.{
  UdpEnv, RetransmitTransporter, set_peer, send_request, start_with, ensure_peer, start_transaction,
  waiting_time, handle_pending_request,
}
use rustun.Transport.Udp.Send.{start_send, finish_with_peer, finish_transaction}
use rustun.Transport.Udp.Pending.{NoneIn, dropped, handle_pending_request-dropped}

module _ (env : UdpEnv) where
  open env use {codec}

  NoneIn-nil : (ms : List codec.Message) → NoneIn codec [] ms
  NoneIn-nil [] = tt
  NoneIn-nil (m ∷ ms) = (refl, NoneIn-nil ms)

  finish_with_peer-last :
      (peer id : ℕ) (p : PeerState codec) (t : RetransmitTransporter env)
      → get peer t.peers ≡ some p
      → p.transactions ≡ id ∷ []
      → p.waiting ≡ false
      → finish_with_peer env peer id t
        ≡ set_peer env peer (record p { transactions = []; waiting = false }) t
  unfolding finish_with_peer Peer.finish_transaction HashSet.remove
  finish_with_peer-last peer id p t found last idle =
      ground (arith, found, last, idle, nat_beq_iff id id)

  -- The last transaction of a peer that does not wait: its state is removed.
  finish_transaction-last :
      (now peer id : ℕ) (p : PeerState codec) (t : RetransmitTransporter env)
      → get peer t.peers ≡ some p
      → p.transactions ≡ id ∷ []
      → p.waiting ≡ false
      → (s : RetransmitTransporter env) × (finish_transaction env now peer id t ≡ done tt s)
        × (get peer s.peers ≡ none)
        × (s.inner ≡ t.inner)
        × (s.timeout_queue ≡ t.timeout_queue)
        × (s.rto ≡ t.rto)
        × (s.min_transaction_interval ≡ t.min_transaction_interval)
        × (s.max_outstanding_transactions ≡ t.max_outstanding_transactions)
  unfolding finish_transaction
  finish_transaction-last now peer id p t found last idle =
      let p' : PeerState codec = record p { transactions = []; waiting = false } in
      let t' : RetransmitTransporter env = set_peer env peer p' t in
      let finished : finish_with_peer env peer id t ≡ t' =
        finish_with_peer-last peer id p t found last idle in
      let found' : get peer t'.peers ≡ some p' = ground (arith, get-insert peer peer p' t.peers) in
      let r =
        handle_pending_request-dropped env now peer p' t' found' (NoneIn-nil p.pending_requests) in
      (
        dropped env peer p' t',
        ap (handle_pending_request env now peer) finished ∙ r,
        ground (
          arith,
          get-remove peer peer (insert peer (record p' { pending_requests = [] }) t'.peers),
        ),
        refl,
        refl,
        refl,
        refl,
        refl,
      )

  -- A request to a peer without a state is sent at once, with the RTO that the transporter was built
  -- with.
  start_send-unknown :
      (now peer : ℕ) (m : codec.Message) (i : env.inner.State) (s : RetransmitTransporter env)
      → get peer s.peers ≡ none
      → codec.class m ≡ MessageClass.request
      → env.inner.start_send now peer m s.inner ≡ done tt i
      → s.min_transaction_interval < now
      → 1 ≤ s.max_outstanding_transactions
      → s.rto * 2 < duration_limit
      → (s' : RetransmitTransporter env) × (start_send env now peer m s ≡ done tt s')
        × (s'.inner ≡ i)
        × (s'.timeout_queue
            ≡ env.timeouts.push now (retransmit peer m (s.rto * 2)) s.rto s.timeout_queue)
  unfolding start_send start_transaction ensure_peer start_with waiting_time send_request Peer.new
      Peer.start_transaction Peer.double
  start_send-unknown now peer m i s none_there request sends interval max rto =
      let p : PeerState codec = Peer.new codec peer s.rto in
      let p' : PeerState codec = record p {
        transactions = HashSet.insert (codec.transaction_id m) [];
        last_transaction_start_time = now;
      } in
      (
        record s {
          inner = i;
          timeout_queue =
              env.timeouts.push now (retransmit peer m (s.rto * 2)) s.rto s.timeout_queue;
          peers = insert peer p' (insert peer p s.peers);
        },
        ground (arith, none_there, request, sends, get-insert peer peer p s.peers),
        refl,
        refl,
      )

  -- When the only transaction with a peer that is not waiting is finished, a request that is sent to
  -- the peer next, however soon, goes out at once if the inner transporter takes it, and is scheduled
  -- to be sent again after the RTO of the transporter, whatever RTO was cached for the peer and
  -- whenever its last transaction started. The limit on outstanding transactions is not 0, twice the
  -- RTO is a `Duration`, and the time since the epoch is longer than the minimum interval.
  pub start_send-finish_transaction :
      (now now' peer id : ℕ) (p : PeerState codec) (m : codec.Message) (i : env.inner.State)
      (t : RetransmitTransporter env)
      → get peer t.peers ≡ some p
      → p.transactions ≡ id ∷ []
      → p.waiting ≡ false
      → codec.class m ≡ MessageClass.request
      → env.inner.start_send now' peer m t.inner ≡ done tt i
      → t.min_transaction_interval < now'
      → 1 ≤ t.max_outstanding_transactions
      → t.rto * 2 < duration_limit
      → (s : RetransmitTransporter env) × (s' : RetransmitTransporter env) × (finish_transaction env
            now peer id t
          ≡ done tt s)
        × (start_send env now' peer m s ≡ done tt s')
        × (s'.inner ≡ i)
        × (s'.timeout_queue
            ≡ env.timeouts.push now' (retransmit peer m (t.rto * 2)) t.rto t.timeout_queue)
  start_send-finish_transaction now now' peer id p m i t found last idle request sends interval max
        rto =
      let (s, finished, forgotten, inner, queue, same_rto, same_interval, same_max) =
        finish_transaction-last now peer id p t found last idle in
      let sends' : env.inner.start_send now' peer m s.inner ≡ done tt i =
        ap (env.inner.start_send now' peer m) inner ∙ sends in
      let (s', started, sent, scheduled) =
        start_send-unknown now' peer m i s forgotten request sends' (omega (arith, same_interval))
          (omega (arith, same_max)) (omega (arith, same_rto)) in
      (s, s', finished, started, sent, scheduled ∙ ground (arith, queue, same_rto))
