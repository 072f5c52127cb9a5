-- ===== src/Transport/Udp/Held/Calls.antt =====
-- The calls of a UDP transporter and the transactions that it holds: src/transport/udp.rs.
use rustun.Prelude.{
  ℕ, ◌≡◌, refl, sym, subst, Bool, true, false, Option, none, some, Outcome, done, fail, panic,
  running, duration_overflow, Keeps, Op, Option-cases, Bool-cases, inl, inr, arith, nat_beq_iff,
  nat_partial_eq, if◌then◌else◌, leb, length,
}
use rustun.Prelude.HashMap.{get, insert, get-insert}
use rustun.Prelude.HashSet
use rustun.Prelude.HashSet.{contains}
use rustun.Codec.{MessageClass, class_beq}
use rustun.Error.{ForeignErrorKind}
use rustun.Transport.Peer
use rustun.Transport.Peer.{
  PeerState, TimeoutEntry, retransmit, expire_rto_cache, allow_next_request,
}
use rustun.Transport.Udp.{
  UdpEnv, RetransmitTransporter, set_peer, waiting_time, send_request, start_with, ensure_peer,
  start_transaction,
}
use rustun.Transport.Udp.Send.{on_inner, start_send}
use rustun.Transport.Udp.Pending.{ids_of}
use rustun.Transport.Udp.Held.{Good, GoodIn, GoodIn-insert, pending-Good, started-Good}

if-Keeps :
    {E S A : Type 0} (P : S → Type 0) (b : Bool) (x y : Outcome E S A)
    → Keeps P x
    → Keeps P y
    → Keeps P (if b then x else y)
if-Keeps P true x y h k = h
if-Keeps P false x y h k = k

module _ (env : UdpEnv) where
  open env use {codec}

  abbrev pub FreshIn : codec.Message → Option (PeerState codec) → Type 0
  FreshIn m none = Unit {0}
  FreshIn m (some p) =
      (contains (codec.transaction_id m) p.transactions ≡ false)
      × (contains (codec.transaction_id m) (ids_of codec p.pending_requests) ≡ false)

  -- The transporter holds no transaction of the message.
  abbrev pub Fresh : ℕ → codec.Message → RetransmitTransporter env → Type 0
  Fresh peer m t = FreshIn m (get peer t.peers)

module _ (env : UdpEnv) (q i : ℕ) where
  open env use {codec}

  -- The state of the peer `q` is good for the transaction `i`.
  abbrev pub Held : Bool → RetransmitTransporter env → Type 0
  Held b t = GoodIn codec i b (get q t.peers)

  send_request-Held :
      (b : Bool) (now peer : ℕ) (m : codec.Message) (p : PeerState codec)
      (t : RetransmitTransporter env)
      → (peer ≡ q
          → Good codec i b
              (record p { transactions = HashSet.insert (codec.transaction_id m) p.transactions }))
      → Held b t
      → Keeps (Held b) (send_request env now peer m p t)
  unfolding send_request Peer.start_transaction
  send_request-Held b now peer m p t k h =
      by_case (env.inner.start_send now peer m t.inner) (Peer.double p.cached_rto)
    where
      by_case :
          (r : Outcome ForeignErrorKind env.inner.State (Unit {0})) (o : Option ℕ)
          → Keeps {E = ForeignErrorKind} {A = Unit {0}} (Held b) (elim r [
            | fail e j ↦ fail e (record t { inner = j })
            | panic x ↦ panic x
            | running ↦ running
            | done _ j ↦
                elim (elim o as (λ x. Option (PeerState codec × TimeoutEntry codec × ℕ)) [
                  | none ↦ none
                  | some next ↦ some (
                    record p {
                      transactions = HashSet.insert (codec.transaction_id m) p.transactions;
                      last_transaction_start_time = now;
                    },
                    retransmit p.peer m next,
                    p.cached_rto,
                  )
                ]) [
                  | none ↦ panic duration_overflow
                  | some (p', entry, delay) ↦ done tt (record t {
                    inner = j;
                    timeout_queue = env.timeouts.push now entry delay t.timeout_queue;
                    peers = insert peer p' t.peers;
                  })
                ]
          ])
      by_case (fail e j) o = h
      by_case (panic x) o = tt
      by_case running o = tt
      by_case (done x j) none = tt
      by_case (done x j) (some next) =
          GoodIn-insert codec i b q peer
            (record p {
              transactions = HashSet.insert (codec.transaction_id m) p.transactions;
              last_transaction_start_time = now;
            })
            t.peers h k

  start_with-Held :
      (b : Bool) (now peer : ℕ) (m : codec.Message) (p : PeerState codec)
      (t : RetransmitTransporter env)
      → get peer t.peers ≡ some p
      → contains (codec.transaction_id m) p.transactions ≡ false
      → contains (codec.transaction_id m) (ids_of codec p.pending_requests) ≡ false
      → (peer ≡ q → codec.transaction_id m ≡ i → b ≡ true)
      → Held b t
      → Keeps (Held b) (start_with env now peer m true p t)
  unfolding start_with Peer.pending
  start_with-Held b now peer m p t e f g k h =
      if-Keeps (Held b) p.waiting _ _ keep (by_case (waiting_time env now t p))
    where
      good : peer ≡ q → Good codec i b p
      good e' =
          subst (GoodIn codec i b) e (subst (λ x. GoodIn codec i b (get x t.peers)) (sym e') h)

      keep : Held b (set_peer env peer (Peer.pending codec m true p) t)
      keep =
          GoodIn-insert codec i b q peer (Peer.pending codec m true p) t.peers h
            (λ e'. pending-Good codec i b m p (good e') f (k e'))

      by_case :
          (o : Option ℕ)
          → Keeps {E = ForeignErrorKind} {A = Unit {0}} (Held b) (elim o [
            | some duration ↦ done tt (record t {
              timeout_queue =
                  env.timeouts.push now (allow_next_request peer) duration t.timeout_queue;
              peers = insert peer (Peer.pending codec m true (record p { waiting = true })) t.peers;
            })
            | none ↦
                if leb t.max_outstanding_transactions (length p.transactions)
                then done tt (set_peer env peer (Peer.pending codec m true p) t)
                else send_request env now peer m p t
          ])
      by_case (some d) =
          GoodIn-insert codec i b q peer (Peer.pending codec m true (record p { waiting = true }))
            t.peers h (λ e'. pending-Good codec i b m p (good e') f (k e'))
      by_case none =
          if-Keeps (Held b) (leb t.max_outstanding_transactions (length p.transactions)) _ _ keep (
            send_request-Held b now peer m p t (λ e'. started-Good codec i b m p (good e') g (k e'))
              h)

  pub on_inner-Held :
      {A : Type 0} (b : Bool) (m : Op ForeignErrorKind env.inner.State A)
      (t : RetransmitTransporter env)
      → Held b t
      → Keeps (Held b) (on_inner env m t)
  on_inner-Held {A = A} b m t h = by_case (m t.inner)
    where
      by_case :
          (r : Outcome ForeignErrorKind env.inner.State A)
          → Keeps (Held b) (elim r [
            | done a j ↦ done a (record t { inner = j })
            | fail e j ↦ fail e (record t { inner = j })
            | panic x ↦ panic x
            | running ↦ running
          ])
      by_case (done a j) = h
      by_case (fail e j) = h
      by_case (panic x) = tt
      by_case running = tt

  start_transaction-Held :
      (b : Bool) (now peer : ℕ) (m : codec.Message) (t : RetransmitTransporter env)
      → Fresh env peer m t
      → (peer ≡ q → codec.transaction_id m ≡ i → b ≡ true)
      → Held b t
      → Keeps (Held b) (start_transaction env now peer m true t)
  unfolding start_transaction ensure_peer Peer.new
  start_transaction-Held b now peer m t f k h = elim (Option-cases (get peer t.peers)) [
    | inl absent ↦
        let p = Peer.new codec peer t.rto in
        let t' = set_peer env peer p t in
        let found : get peer t'.peers ≡ some p =
          ground (arith, get-insert peer peer p t.peers, nat_beq_iff peer peer) in
        let r : start_transaction env now peer m true t ≡ start_with env now peer m true p t' =
          ground (arith, absent, found) in
        subst (λ r. Keeps (Held b) r) (sym r)
          (start_with-Held b now peer m p t' found refl refl k (
            GoodIn-insert codec i b q peer p t.peers h
              (λ e. (tt, λ x. absurd (ground arith), λ x. absurd (ground arith)))))
    | inr (p, found) ↦
        let r : start_transaction env now peer m true t ≡ start_with env now peer m true p t =
          ground (arith, found) in
        let (f0, f1) = subst (FreshIn env m) found f in
        subst (λ r. Keeps (Held b) r) (sym r) (start_with-Held b now peer m p t found f0 f1 k h)
  ]

  -- A request of a transaction that is not held is the one that may be held afterwards.
  pub start_send-Held :
      (b : Bool) (now peer : ℕ) (m : codec.Message) (t : RetransmitTransporter env)
      → (class_beq (codec.class m) MessageClass.request ≡ true
          → Fresh env peer m t × (peer ≡ q → codec.transaction_id m ≡ i → b ≡ true))
      → Held b t
      → Keeps (Held b) (start_send env now peer m t)
  unfolding start_send
  start_send-Held b now peer m t f h =
      elim (Bool-cases (class_beq (codec.class m) MessageClass.request)) [
        | inr e ↦ rw (Keeps, e) (on_inner-Held b (env.inner.start_send now peer m) t h)
        | inl e ↦ rw (Keeps, e) (start_transaction-Held b now peer m t (f e).0 (f e).1 h)
      ]

  start_with-fail :
      (now peer : ℕ) (m : codec.Message) (first : Bool) (p : PeerState codec)
      (t s : RetransmitTransporter env) (e : ForeignErrorKind)
      → start_with env now peer m first p t ≡ fail e s
      → s.peers ≡ t.peers
  unfolding start_with send_request
  start_with-fail now peer m first p t s e h = ground arith

  -- A call that fails starts no transaction and keeps no request back.
  pub start_send-fail :
      (b : Bool) (now peer : ℕ) (m : codec.Message) (t s : RetransmitTransporter env)
      (e : ForeignErrorKind)
      → start_send env now peer m t ≡ fail e s
      → Held b t
      → Held b s
  unfolding start_send start_transaction ensure_peer Peer.new
  start_send-fail b now peer m t s e r h = elim (Option-cases (get peer t.peers)) [
    | inl absent ↦
        let p = Peer.new codec peer t.rto in
        let t' = set_peer env peer p t in
        let h' : Held b t' =
          GoodIn-insert codec i b q peer p t.peers h
            (λ e. (tt, λ x. absurd (ground arith), λ x. absurd (ground arith))) in
        elim (Bool-cases (class_beq (codec.class m) MessageClass.request)) [
          | inl c ↦
              let r' : start_with env now peer m true p t' ≡ fail e s =
                ground
                  (arith, r, c, absent, get-insert peer peer p t.peers, nat_beq_iff peer peer) in
              subst (λ ps. GoodIn codec i b (get q ps))
                (sym (start_with-fail now peer m true p t' s e r')) h'
          | inr c ↦
              let r' : s.peers ≡ t.peers = ground (arith, r, c) in
              subst (λ ps. GoodIn codec i b (get q ps)) (sym r') h
        ]
    | inr (p, found) ↦ elim (Bool-cases (class_beq (codec.class m) MessageClass.request)) [
      | inl c ↦
          let r' : start_with env now peer m true p t ≡ fail e s = ground (arith, r, c, found) in
          subst (λ ps. GoodIn codec i b (get q ps))
            (sym (start_with-fail now peer m true p t s e r')) h
      | inr c ↦
          let r' : s.peers ≡ t.peers = ground (arith, r, c) in
          subst (λ ps. GoodIn codec i b (get q ps)) (sym r') h
    ]
  ]
