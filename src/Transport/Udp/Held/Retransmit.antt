-- ===== src/Transport/Udp/Held/Retransmit.antt =====
-- A retransmission and the expiry of a cached RTO, and the transactions that a UDP transporter holds:
-- src/transport/udp.rs, `poll_send`.
use rustun.Prelude.{
  ℕ, ◌≡◌, refl, sym, subst, Bool, true, false, Option, none, some, Outcome, done, fail, panic,
  running, duration_overflow, Keeps, Option-cases, inl, inr, arith, nat_beq, nat_partial_eq,
  if◌then◌else◌,
}
use rustun.Prelude.HashMap.{get, insert}
use rustun.Prelude.HashSet.{contains}
use rustun.Error.{ForeignErrorKind}
use rustun.Transport.Peer
use rustun.Transport.Peer.{
  PeerState, TimeoutEntry, retransmit, expire_rto_cache, allow_next_request,
}
use rustun.Transport.Udp.{
  UdpEnv, RetransmitTransporter, set_peer, handle_retransmit, expire_cached_rto,
}
use rustun.Transport.Udp.Pending.{NoneIn, ids_of}
use rustun.Transport.Udp.Held.{Good, GoodIn, GoodIn-insert}
use rustun.Transport.Udp.Held.Calls.{Held}

module _ (env : UdpEnv) (q i : ℕ) where
  open env use {codec}

  -- A state of the peer with the same transactions and pending requests.
  pub set_peer-Held :
      (b : Bool) (peer : ℕ) (p p' : PeerState codec) (t : RetransmitTransporter env)
      → get peer t.peers ≡ some p
      → p'.transactions ≡ p.transactions
      → p'.pending_requests ≡ p.pending_requests
      → Held env q i b t
      → Held env q i b (set_peer env peer p' t)
  set_peer-Held b peer p p' t found u v h = GoodIn-insert codec i b q peer p' t.peers h λ e.
      let g : Good codec i b p =
        subst (GoodIn codec i b) found (subst (λ x. GoodIn codec i b (get x t.peers)) (sym e) h) in
      subst
        (λ ms.
          NoneIn codec p'.transactions ms
          × (contains i p'.transactions ≡ true → b ≡ true)
          × (contains i (ids_of codec ms) ≡ true → b ≡ true))
        (sym v)
        (subst
          (λ ids.
            NoneIn codec ids p.pending_requests
            × (contains i ids ≡ true → b ≡ true)
            × (contains i (ids_of codec p.pending_requests) ≡ true → b ≡ true))
          (sym u) g)

  retransmit_request-same :
      (now : ℕ) (m : codec.Message) (rto cache : ℕ) (queue queue' : env.timeouts.Queue)
      (p p' : PeerState codec) (o : Option codec.Message)
      → Peer.retransmit_request codec env.timeouts now m rto cache queue p ≡ some (o, p', queue')
      → (p'.transactions ≡ p.transactions) × (p'.pending_requests ≡ p.pending_requests)
  unfolding Peer.retransmit_request
  retransmit_request-same now m rto cache queue queue' p p' o e = ground arith

  pub handle_retransmit-Held :
      (b : Bool) (now peer : ℕ) (m : codec.Message) (rto : ℕ) (t : RetransmitTransporter env)
      → Held env q i b t
      → Keeps (Held env q i b) (handle_retransmit env now peer m rto t)
  unfolding handle_retransmit
  handle_retransmit-Held b now peer m rto t h = elim (Option-cases (get peer t.peers)) [
    | inl absent ↦ rw (Keeps, absent) h
    | inr (p, found) ↦
        rw (Keeps, found)
          (by_case p found
            (Peer.retransmit_request codec env.timeouts now m rto t.rto_cache_duration
              t.timeout_queue p)
            refl (λ x. env.inner.start_send now peer x t.inner))
  ]
    where
      sent :
          (p' : PeerState codec) (queue : env.timeouts.Queue)
          → Held env q i b (set_peer env peer p' t)
          → (r : Outcome ForeignErrorKind env.inner.State (Unit {0}))
          → Keeps {E = ForeignErrorKind} {A = Unit {0}} (Held env q i b) (elim r [
            | done _ i ↦
                done tt
                  (record t { inner = i; timeout_queue = queue; peers = insert peer p' t.peers })
            | fail e i ↦
                fail e
                  (record t { inner = i; timeout_queue = queue; peers = insert peer p' t.peers })
            | panic x ↦ panic x
            | running ↦ running
          ])
      sent p' queue k (done x j) = k
      sent p' queue k (fail e j) = k
      sent p' queue k (panic x) = tt
      sent p' queue k running = tt

      by_case :
          (p : PeerState codec)
          → get peer t.peers ≡ some p
          → (r : Option (Option codec.Message × PeerState codec × env.timeouts.Queue))
          → Peer.retransmit_request codec env.timeouts now m rto t.rto_cache_duration
              t.timeout_queue p
            ≡ r
          → (send : codec.Message → Outcome ForeignErrorKind env.inner.State (Unit {0}))
          → Keeps {E = ForeignErrorKind} {A = Unit {0}} (Held env q i b) (elim r [
            | none ↦ panic duration_overflow
            | some (none, p', queue) ↦
                done tt (record t { timeout_queue = queue; peers = insert peer p' t.peers })
            | some (some m, p', queue) ↦ elim (send m) [
              | done _ i ↦
                  done tt
                    (record t { inner = i; timeout_queue = queue; peers = insert peer p' t.peers })
              | fail e i ↦
                  fail e
                    (record t { inner = i; timeout_queue = queue; peers = insert peer p' t.peers })
              | panic x ↦ panic x
              | running ↦ running
            ]
          ])
      by_case p found none e send = tt
      by_case p found (some (none, p', queue)) e send =
          let s =
            retransmit_request-same now m rto t.rto_cache_duration t.timeout_queue queue p p' none
              e in
          set_peer-Held b peer p p' t found s.0 s.1 h
      by_case p found (some (some m', p', queue)) e send =
          let s =
            retransmit_request-same now m rto t.rto_cache_duration t.timeout_queue queue p p'
              (some m') e in
          sent p' queue (set_peer-Held b peer p p' t found s.0 s.1 h) (send m')

  pub expire_cached_rto-Held :
      (b : Bool) (peer rto : ℕ) (t : RetransmitTransporter env)
      → Held env q i b t
      → Held env q i b (expire_cached_rto env peer rto t)
  unfolding expire_cached_rto
  expire_cached_rto-Held b peer rto t h = elim (Option-cases (get peer t.peers)) [
    | inl absent ↦
        let r : expire_cached_rto env peer rto t ≡ t = ground (arith, absent) in
        subst (Held env q i b) (sym r) h
    | inr (p, found) ↦
        let p' = record p { cached_rto = t.rto } in
        let r : expire_cached_rto env peer rto t
            ≡ (if nat_beq p.cached_rto rto then set_peer env peer p' t else t) =
          ground (arith, found) in
        subst (Held env q i b) (sym r)
          (either p' (set_peer-Held b peer p p' t found refl refl h) (nat_beq p.cached_rto rto))
  ]
    where
      either :
          (p' : PeerState codec)
          → Held env q i b (set_peer env peer p' t)
          → (c : Bool) → Held env q i b (if c then set_peer env peer p' t else t)
      either p' k true = k
      either p' k false = h
