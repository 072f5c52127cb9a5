-- ===== src/Transport/Udp/Invariant/Entry.antt =====
-- Handling an entry of the timeout queue keeps the invariant: src/transport/udp.rs,
-- `handle_pending_request`, `handle_retransmit` and the arms of `poll_send`.
use rustun.Prelude.{
  ℕ, ◌*◌, ◌≡◌, true, false, none, some, nat_partial_eq, arith, Option-cases, inl, inr, refl,
}
use rustun.Prelude.HashMap.{get, get-insert, get-remove, insert as map_insert}
use rustun.Transport.{IsTransport, IsTimeoutQueue}
use rustun.Transport.Peer
use rustun.Transport.Peer.{
  PeerState, TimeoutEntry, retransmit, allow_next_request, expire_rto_cache,
}
use rustun.Transport.Udp.{
  UdpEnv, RetransmitTransporter, start_transaction, drop_idle, handle_pending_request,
  handle_retransmit, handle_entry, expire_cached_rto, is_live,
}
use rustun.Transport.Udp.Invariant.{Safe, Safe-and_then, is_allow, is_retransmit, At, Inv, Present}
use rustun.Transport.Udp.Invariant.Start.{start_transaction-Good}

module _ (env : UdpEnv) (laws : IsTimeoutQueue env.timeouts)
    (inner_laws : IsTransport env.inner) where
  open env use {codec}

  drop_idle-At :
      (peer k i : ℕ) (t : RetransmitTransporter env)
      → Present env laws peer t
      → At env laws none k i t
      → Safe (At env laws none k i) (drop_idle env peer t)
  unfolding drop_idle Peer.is_idle
  drop_idle-At peer k i t hp h = ground (arith, get-remove peer k t.peers)

  -- Any change of a peer's state that leaves its transactions and its `waiting` alone.
  same-At :
      (peer k i : ℕ) (p p' : PeerState codec) (t : RetransmitTransporter env)
      → get peer t.peers ≡ some p
      → p'.peer ≡ p.peer
      → p'.transactions ≡ p.transactions
      → p'.waiting ≡ p.waiting
      → At env laws none k i t
      → At env laws none k i (record t { peers = map_insert peer p' t.peers })
  same-At peer k i p p' t hp h0 h1 h2 h = ground (arith, get-insert peer k p' t.peers)

  pub handle_pending_request-At :
      (now peer k i : ℕ) (t : RetransmitTransporter env)
      → At env laws none k i t
      → Safe (At env laws none k i) (handle_pending_request env now peer t)
  unfolding handle_pending_request Peer.pop_pending_request
  handle_pending_request-At now peer k i t h = elim (Option-cases (get peer t.peers)) [
    | inl e ↦ ground arith
    | inr (p, e) ↦
        let p' : PeerState codec = (Peer.pop_pending_request codec p).1 in
        let t' : RetransmitTransporter env = record t { peers = map_insert peer p' t.peers } in
        let h' : At env laws none k i t' = same-At peer k i p p' t e refl refl refl h in
        elim (Option-cases (Peer.pop_pending_request codec p).0) [
          | inl none_left ↦
              ground
                (arith, e, none_left, get-insert peer peer p' t.peers, drop_idle-At peer k i t')
          | inr (m, found) ↦ ground (
            arith,
            e,
            found,
            Safe-and_then (start_transaction env now peer m false t') (λ _. drop_idle env peer)
                (start_transaction-Good env laws inner_laws now peer k i m false t' h') (λ s g. g.0)
                (λ _ s g. drop_idle-At peer k i s g.1 g.0),
          )
        ]
  ]

  handle_retransmit-At :
      (now peer k i rto : ℕ) (request : codec.Message) (t : RetransmitTransporter env)
      → is_live env t (retransmit peer request rto) ≡ true
      → At env laws (some (retransmit peer request rto)) k i t
      → Safe (At env laws none k i) (handle_retransmit env now peer request rto t)
  unfolding handle_retransmit Peer.retransmit_request Peer.double is_live
  handle_retransmit-At now peer k i rto request t live h = elim (Option-cases (get peer t.peers)) [
    | inl e ↦ ground arith
    | inr (p, e) ↦
        let entry : TimeoutEntry codec = retransmit p.peer request (rto * 2) in
        let expiry : TimeoutEntry codec = expire_rto_cache p.peer rto in
        let q = env.timeouts.push now entry rto t.timeout_queue in
        ground (
          arith,
          e,
          inner_laws.start_send-Returns now peer request t.inner,
          laws.count-push (is_allow env k) now entry rto t.timeout_queue,
          laws.count-push (is_retransmit env k i) now entry rto t.timeout_queue,
          laws.count-push (is_allow env k) now expiry t.rto_cache_duration q,
          laws.count-push (is_retransmit env k i) now expiry t.rto_cache_duration q,
          get-insert peer k p t.peers,
          get-insert peer k (record p { cached_rto = rto }) t.peers,
        )
  ]

  expire_cached_rto-At :
      (peer k i rto : ℕ) (t : RetransmitTransporter env)
      → At env laws (some (expire_rto_cache peer rto)) k i t
      → At env laws none k i (expire_cached_rto env peer rto t)
  unfolding expire_cached_rto
  expire_cached_rto-At peer k i rto t h = elim (Option-cases (get peer t.peers)) [
    | inl e ↦ ground arith
    | inr (p, e) ↦ ground (arith, e, get-insert peer k (record p { cached_rto = t.rto }) t.peers)
  ]

  allow-At :
      (now peer k i : ℕ) (t : RetransmitTransporter env)
      → Inv env laws (some (allow_next_request peer)) t
      → Safe (At env laws none k i) (handle_entry env now (allow_next_request peer) t)
  unfolding handle_entry
  allow-At now peer k i t inv = elim (Option-cases (get peer t.peers)) [
    | inl e ↦ ground (arith, e, inv peer i)
    | inr (p, e) ↦
        let p' : PeerState codec = record p { waiting = false } in
        let t' : RetransmitTransporter env = record t { peers = map_insert peer p' t.peers } in
        let h : At env laws none k i t' =
          ground (arith, e, inv k i, get-insert peer k p' t.peers) in
        ground (arith, e, handle_pending_request-At now peer k i t' h)
  ]

  pub handle_entry-At :
      (now k i : ℕ) (e : TimeoutEntry codec) (t : RetransmitTransporter env)
      → is_live env t e ≡ true
      → Inv env laws (some e) t
      → Safe (At env laws none k i) (handle_entry env now e t)
  unfolding handle_entry
  handle_entry-At now k i (retransmit peer request rto) t live inv =
      handle_retransmit-At now peer k i rto request t live (inv k i)
  handle_entry-At now k i (expire_rto_cache peer rto) t live inv =
      expire_cached_rto-At peer k i rto t (inv k i)
  handle_entry-At now k i (allow_next_request peer) t live inv = allow-At now peer k i t inv
