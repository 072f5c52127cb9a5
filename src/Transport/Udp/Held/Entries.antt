-- ===== src/Transport/Udp/Held/Entries.antt =====
-- The entries of the timeout queue, and the transactions that a UDP transporter holds:
-- src/transport/udp.rs, `poll_send` and `finish_transaction`.
use rustun.Prelude.{
  ℕ, ◌≡◌, ◌≢◌, sym, ap, subst, Bool, true, false, not, ◌&&◌, some, [], done, Keeps, Option-cases,
  Bool-cases, inl, inr, arith, nat_beq, nat_beq_iff, nat_partial_eq, if◌then◌else◌, is_empty,
}
use rustun.Prelude.HashMap.{get, insert, remove, get-insert}
use rustun.Prelude.HashSet.{contains, contains-remove}
use rustun.Transport.Peer
use rustun.Transport.Peer.{
  PeerState, TimeoutEntry, retransmit, expire_rto_cache, allow_next_request,
}
use rustun.Transport.Udp.{
  UdpEnv, RetransmitTransporter, set_peer, handle_entry, handle_pending_request,
}
use rustun.Transport.Udp.Send.{finish_with_peer, finish_transaction}
use rustun.Transport.Udp.Pending.{NoneIn, NoneIn-remove, dropped, handle_pending_request-dropped}
use rustun.Transport.Udp.Held.{Good, GoodIn, GoodIn-remove, GoodIn-put, GoodIn-weaken}
use rustun.Transport.Udp.Held.Calls.{Held}
use rustun.Transport.Udp.Held.Retransmit.{handle_retransmit-Held, expire_cached_rto-Held}

module _ (env : UdpEnv) (q i : ℕ) where
  open env use {codec}

  dropped-Held :
      (b : Bool) (peer : ℕ) (p : PeerState codec) (t : RetransmitTransporter env)
      → (peer ≡ q → contains i p.transactions ≡ true → b ≡ true)
      → (peer ≢ q → Held env q i b t)
      → Held env q i b (dropped env peer p t)
  dropped-Held b peer p t k h = either (is_empty p.transactions && not p.waiting)
    where
      either :
          (c : Bool)
          → let t' = set_peer env peer (record p { pending_requests = [] }) t in
            Held env q i b (if c then record t' { peers = remove peer t'.peers } else t')
      either true =
          GoodIn-remove codec i b q peer (insert peer (record p { pending_requests = [] }) t.peers)
            (λ n.
              GoodIn-put codec i b q peer (record p { pending_requests = [] }) t.peers h
                (λ e. absurd (n e)))
      either false =
          GoodIn-put codec i b q peer (record p { pending_requests = [] }) t.peers h
            (λ e. (tt, k e, λ x. absurd (ground arith)))

  -- The pending requests of the peer are dropped.
  handle_pending_request-Held :
      (b : Bool) (now peer : ℕ) (p : PeerState codec) (t : RetransmitTransporter env)
      → get peer t.peers ≡ some p
      → NoneIn codec p.transactions p.pending_requests
      → (peer ≡ q → contains i p.transactions ≡ true → b ≡ true)
      → (peer ≢ q → Held env q i b t)
      → Keeps (Held env q i b) (handle_pending_request env now peer t)
  handle_pending_request-Held b now peer p t found n k h =
      subst (Keeps (Held env q i b)) (sym (handle_pending_request-dropped env now peer p t found n))
        (dropped-Held b peer p t k h)

  Good-at :
      (b : Bool) (peer : ℕ) (p : PeerState codec) (t : RetransmitTransporter env)
      → get peer t.peers ≡ some p
      → Held env q i b t
      → peer ≡ q
      → Good codec i b p
  Good-at b peer p t found h e =
      subst (GoodIn codec i b) found (subst (λ x. GoodIn codec i b (get x t.peers)) (sym e) h)

  allow_next_request-Held :
      (b : Bool) (now peer : ℕ) (t : RetransmitTransporter env)
      → Held env q i b t
      → Held env peer 0 true t
      → Keeps (Held env q i b) (handle_entry env now (allow_next_request peer) t)
  unfolding handle_entry
  allow_next_request-Held b now peer t h g = elim (Option-cases (get peer t.peers)) [
    | inl absent ↦ rw (Keeps, absent) tt
    | inr (p, found) ↦
        let p' : PeerState codec = record p { waiting = false } in
        let t' = set_peer env peer p' t in
        rw (Keeps, found)
          (handle_pending_request-Held b now peer p' t'
            (ground (arith, get-insert peer peer p' t.peers, nat_beq_iff peer peer))
            (subst (GoodIn codec 0 true) found g).0 (λ e. (Good-at b peer p t found h e).1)
            (λ n. GoodIn-put codec i b q peer p' t.peers (λ _. h) (λ e. absurd (n e))))
  ]

  -- The end of a transaction: it is not held any more.
  pub finish_transaction-Held :
      (b d : Bool) (now peer id : ℕ) (t : RetransmitTransporter env)
      → (peer ≢ q → b ≡ true → d ≡ true)
      → (peer ≡ q → id ≢ i → b ≡ true → d ≡ true)
      → Held env peer 0 true t
      → Held env q i b t
      → Keeps (Held env q i d) (finish_transaction env now peer id t)
  unfolding finish_transaction finish_with_peer handle_pending_request Peer.finish_transaction
  finish_transaction-Held b d now peer id t f f' g h = elim (Option-cases (get peer t.peers)) [
    | inl absent ↦
        let r : finish_transaction env now peer id t ≡ done tt t = ground (arith, absent) in
        subst (Keeps (Held env q i d)) (sym r) (elim (Bool-cases (nat_beq peer q)) [
          | inl e ↦
              subst (λ x. GoodIn codec i d (get x t.peers)) ((nat_beq_iff peer q).0 e)
                (subst (GoodIn codec i d) (sym absent) tt)
          | inr e ↦ GoodIn-weaken codec i b d (get q t.peers) (f (ground arith)) h
        ])
    | inr (p, found) ↦
        let p' : PeerState codec = Peer.finish_transaction codec id p in
        let t' = set_peer env peer p' t in
        let r : finish_transaction env now peer id t ≡ handle_pending_request env now peer t' =
          ap (handle_pending_request env now peer) (ground (arith, found)) in
        subst (Keeps (Held env q i d)) (sym r) (
          handle_pending_request-Held d now peer p' t'
            (ground (arith, get-insert peer peer p' t.peers, nat_beq_iff peer peer))
            (NoneIn-remove codec id p.transactions p.pending_requests
              (subst (GoodIn codec 0 true) found g).0)
            (λ e c.
              let o = (Good-at b peer p t found h e).1 in
              let m = contains-remove id i p.transactions in
              f' e (λ x. absurd (ground (arith, m, c, nat_beq_iff id i, x)))
                (o (ground (arith, m, c))))
            (λ n.
              GoodIn-put codec i d q peer p' t.peers
                (λ _. GoodIn-weaken codec i b d (get q t.peers) (f n) h) (λ e. absurd (n e))))
  ]

  pub handle_entry-Held :
      (b : Bool) (now : ℕ) (entry : TimeoutEntry codec) (t : RetransmitTransporter env)
      → ((peer : ℕ) → Held env peer 0 true t)
      → Held env q i b t
      → Keeps (Held env q i b) (handle_entry env now entry t)
  unfolding handle_entry
  handle_entry-Held b now (retransmit peer m rto) t g h =
      handle_retransmit-Held env q i b now peer m rto t h
  handle_entry-Held b now (expire_rto_cache peer rto) t g h =
      expire_cached_rto-Held env q i b peer rto t h
  handle_entry-Held b now (allow_next_request peer) t g h =
      allow_next_request-Held b now peer t h (g peer)
