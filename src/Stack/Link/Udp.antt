-- ===== src/Stack/Link/Udp.antt =====
-- `StunUdpTransporter` on a network that loses nothing: src/transport/udp.rs. A first request is sent at
-- once.
pub mod Calm
use rustun.Prelude.{
  ℕ, suc, ◌+◌, ◌*◌, ◌<◌, ◌≡◌, refl, true, some, [], ◌∷◌, ◌++◌, nat_partial_eq, arith, nat_beq_iff,
}
use rustun.Prelude.HashSet
use rustun.Prelude.HashMap.{HashMap, get, insert, remove}
use rustun.Codec.{MessageClass}
use rustun.Message.Laws.{class_beq_iff}
use rustun.Transport.{IsTimedQueue}
use rustun.Transport.Peer
use rustun.Transport.Peer.{PeerState, duration_limit, double, retransmit}
use rustun.Transport.Udp.{
  UdpEnv, RetransmitTransporter, send_request, start_with, ensure_peer, start_transaction,
  waiting_time,
}
use rustun.Transport.Udp.Send
use rustun.Transport.Udp.Send.{udp_transport}
use rustun.Stack.Link.{Net, IsNet, Link, Gives}

module _ (env : UdpEnv) (timed : IsTimedQueue env.timeouts) (rounds : ℕ) (n : Net env.inner) where
  open env use {codec}

  abbrev pub State : Type 0
  State = RetransmitTransporter env

  -- No peer has a request that was kept back.
  abbrev pub NonePending : HashMap ℕ (PeerState codec) → Type 0
  NonePending [] = Unit {0}
  NonePending ((k, p) ∷ peers) = (p.pending_requests ≡ []) × NonePending peers

  -- No peer is known, nothing is scheduled, and the settings let a first request pass.
  abbrev pub IsFresh : ℕ → State → Type 0
  IsFresh now t =
      (t.peers ≡ [])
      × (timed.laws.count (λ _. true) t.timeout_queue ≡ 0)
      × (t.min_transaction_interval < now)
      × (0 < t.max_outstanding_transactions)
      × (t.rto * 2 < duration_limit)

  abbrev pub IsCalm : ℕ → State → Type 0
  IsCalm limit t = NonePending t.peers × (timed.due limit (λ _. true) t.timeout_queue ≡ 0)

  abbrev pub udp_link : Link (udp_transport env (suc rounds))
  udp_link = record {
    arrived = λ t. n.arrived t.inner;
    sent = λ t. n.sent t.inner;
    arrive = λ x t. record t { inner = n.arrive x t.inner };
    Knows = λ peer. Unit {0};
    Quiet = λ now limit t. limit < now + t.rto;
    Fresh = IsFresh;
    Calm = IsCalm;
  }

  pub NonePending-remove :
      (k : ℕ) (peers : HashMap ℕ (PeerState codec))
      → NonePending peers
      → NonePending (remove k peers)
  NonePending-remove k [] h = tt
  NonePending-remove k ((j, p) ∷ peers) (e, h) = ground (arith, NonePending-remove k peers h)

  pub NonePending-insert :
      (k : ℕ) (p : PeerState codec) (peers : HashMap ℕ (PeerState codec))
      → p.pending_requests ≡ []
      → NonePending peers
      → NonePending (insert k p peers)
  unfolding insert
  NonePending-insert k p peers e h = (e, NonePending-remove k peers h)

  pub NonePending-get :
      (k : ℕ) (p : PeerState codec) (peers : HashMap ℕ (PeerState codec))
      → NonePending peers
      → get k peers ≡ some p
      → p.pending_requests ≡ []
  NonePending-get k p [] h g = absurd (ground arith)
  NonePending-get k p ((j, q) ∷ peers) (e, h) g = ground (arith, NonePending-get k p peers h)

  module _ (laws : IsNet env.inner n) where
    -- The first request is sent at once.
    pub send_request-Gives :
        (now limit : ℕ) (peer : ℕ) (m : codec.Message) (t : State)
        → codec.class m ≡ MessageClass.request
        → IsFresh now t
        → limit < now + t.rto
        → Gives
            (udp_transport env (suc rounds))
            udp_link
            limit
            tt
            (n.arrived t.inner)
            (n.sent t.inner ++ (peer, m) ∷ [])
            (Send.start_send env now peer m)
            t
    unfolding Send.start_send start_transaction ensure_peer start_with waiting_time send_request
        Peer.start_transaction Peer.new double insert
    send_request-Gives now limit peer m t k (none_known, empty, spaced, some_allowed, small) quiet =
        let (i, e, a, b) = laws.start_send now peer m t.inner in
        let p = Peer.new codec peer t.rto in
        let q = env.timeouts.push now (retransmit peer m (t.rto * 2)) t.rto t.timeout_queue in
        let started = record p {
          transactions = HashSet.insert (codec.transaction_id m) [];
          last_transaction_start_time = now;
        } in
        (
          record t { inner = i; timeout_queue = q; peers = insert peer started (insert peer p []) },
          ground (
            arith,
            e,
            none_known,
            (class_beq_iff (codec.class m) MessageClass.request).1 k,
            nat_beq_iff peer peer,
          ),
          a,
          b,
          (
            NonePending-insert peer started (insert peer p []) refl
                (NonePending-insert peer p [] refl tt),
            ground (
              arith,
              timed.due-push limit (λ _. true) now (retransmit peer m (t.rto * 2)) t.rto
                  t.timeout_queue,
              timed.due-later limit (λ _. true) t.timeout_queue,
            ),
          ),
        )
