-- ===== src/Transport/Udp/Invariant/Start.antt =====
-- Starting a transaction keeps the invariant: src/transport/udp.rs, `start_transaction`.
use rustun.Prelude.{
  ℕ, ◌*◌, ◌<◌, ◌≡◌, Bool, true, none, some, length, nat_partial_eq, arith, Option-cases, inl, inr,
}
use rustun.Prelude.HashMap.{get, get-insert, insert as map_insert}
use rustun.Prelude.HashSet.{contains-insert, insert, length-insert-le}
use rustun.Transport.{IsTransport, IsTimeoutQueue}
use rustun.Transport.Peer
use rustun.Transport.Peer.{PeerState, TimeoutEntry, retransmit, allow_next_request}
use rustun.Transport.Udp.{
  UdpEnv, RetransmitTransporter, send_request, start_with, waiting_time, ensure_peer,
  start_transaction,
}
use rustun.Transport.Udp.Invariant.{Safe, is_allow, is_retransmit, At, Present}

module _ (env : UdpEnv) (laws : IsTimeoutQueue env.timeouts)
    (inner_laws : IsTransport env.inner) where
  open env use {codec}

  abbrev Good : ℕ → ℕ → ℕ → RetransmitTransporter env → Type 0
  Good peer k i s = At env laws none k i s × Present env laws peer s

  send_request-Good :
      (now peer k i : ℕ) (request : codec.Message) (p : PeerState codec)
      (t : RetransmitTransporter env)
      → get peer t.peers ≡ some p
      → length p.transactions < t.max_outstanding_transactions
      → At env laws none k i t
      → Safe (Good peer k i) (send_request env now peer request p t)
  unfolding send_request Peer.start_transaction Peer.double
  send_request-Good now peer k i request p t hp hl h =
      let q = t.timeout_queue in
      let e : TimeoutEntry codec = retransmit p.peer request (p.cached_rto * 2) in
      let p' : PeerState codec = record p {
        transactions = insert (codec.transaction_id request) p.transactions;
        last_transaction_start_time = now;
      } in
      ground (
        arith,
        inner_laws.start_send-Returns now peer request t.inner,
        laws.count-push (is_allow env k) now e p.cached_rto q,
        laws.count-push (is_retransmit env k i) now e p.cached_rto q,
        get-insert peer k p' t.peers,
        get-insert peer peer p' t.peers,
        contains-insert (codec.transaction_id request) i p.transactions,
        length-insert-le (codec.transaction_id request) p.transactions,
      )

  -- A request that is kept back changes nothing that the invariant speaks of.
  pending-Good :
      (peer k i : ℕ) (request : codec.Message) (first : Bool) (p : PeerState codec)
      (t : RetransmitTransporter env)
      → get peer t.peers ≡ some p
      → At env laws none k i t
      → Good peer k i
          (record t { peers = map_insert peer (Peer.pending codec request first p) t.peers })
  unfolding Peer.pending
  pending-Good peer k i request first p t hp h =
      let p' : PeerState codec = Peer.pending codec request first p in
      ground (arith, get-insert peer k p' t.peers, get-insert peer peer p' t.peers)

  start_with-Good :
      (now peer k i : ℕ) (request : codec.Message) (first : Bool) (p : PeerState codec)
      (t : RetransmitTransporter env)
      → get peer t.peers ≡ some p
      → At env laws none k i t
      → Safe (Good peer k i) (start_with env now peer request first p t)
  unfolding start_with Peer.pending
  start_with-Good now peer k i request first p t hp h =
      let q = t.timeout_queue in
      let e : TimeoutEntry codec = allow_next_request peer in
      let p' : PeerState codec = Peer.pending codec request first (record p { waiting = true }) in
      elim (Option-cases (waiting_time env now t p)) [
        | inl e0 ↦ ground (
          arith,
          send_request-Good now peer k i request p t,
          pending-Good peer k i request first p t hp h,
        )
        | inr (d, e1) ↦ ground (
          arith,
          pending-Good peer k i request first p t hp h,
          laws.count-push (is_allow env k) now e d q,
          laws.count-push (is_retransmit env k i) now e d q,
          get-insert peer k p' t.peers,
          get-insert peer peer p' t.peers,
        )
      ]

  ensure_peer-At :
      (peer k i : ℕ) (t : RetransmitTransporter env)
      → At env laws none k i t
      → At env laws none k i (ensure_peer env peer t)
  unfolding ensure_peer Peer.new
  ensure_peer-At peer k i t h =
      ground (arith, get-insert peer k (Peer.new codec peer t.rto) t.peers)

  ensure_peer-Present :
      (peer : ℕ) (t : RetransmitTransporter env)
      → (p : PeerState codec) × (get peer (ensure_peer env peer t).peers ≡ some p)
  unfolding ensure_peer
  ensure_peer-Present peer t = elim (Option-cases (get peer t.peers)) [
    | inl e ↦ (
      Peer.new codec peer t.rto,
      ground (arith, get-insert peer peer (Peer.new codec peer t.rto) t.peers),
    )
    | inr (p, e) ↦ (p, ground arith)
  ]

  pub start_transaction-Good :
      (now peer k i : ℕ) (request : codec.Message) (first : Bool) (t : RetransmitTransporter env)
      → At env laws none k i t
      → Safe (Good peer k i) (start_transaction env now peer request first t)
  unfolding start_transaction
  start_transaction-Good now peer k i request first t h =
      let (p, e) = ensure_peer-Present peer t in
      let t' = ensure_peer env peer t in
      ground
        (arith, e, start_with-Good now peer k i request first p t' e (ensure_peer-At peer k i t h))
