-- ===== src/Transport/Udp.antt =====
-- src/transport/udp.rs, `RetransmitTransporter`: requests are sent again until their transactions
-- are finished, and new transactions with a peer are spaced out and limited.
pub mod Send
pub mod Builder
pub mod Reach
pub mod Pending
pub mod Finish
pub mod Held
pub mod Rounds
pub mod Rtos
pub mod Backoff
pub mod Forgets
pub mod Invariant
use rustun.Prelude.{
  nat_partial_eq, ℕ, ◌-◌, Bool, true, false, Option, none, some, leb, ltb, if◌then◌else◌, length,
  done, fail, panic, running, missing_key, duration_overflow, Op, nat_beq, ◌>>=◌,
}
use rustun.Prelude.HashMap.{HashMap, get, insert, remove, contains_key}
use rustun.Prelude.HashSet
use rustun.Codec.{StunCodec}
use rustun.Error.{ForeignErrorKind}
use rustun.Transport.{Transport, TimeoutQueue}
use rustun.Transport.Peer
use rustun.Transport.Peer.{
  PeerState, TimeoutEntry, retransmit, expire_rto_cache, allow_next_request,
}

-- What the transporter takes from other crates.
pub record UdpEnv : Type 1 where
  pub codec : StunCodec
  pub inner : Transport codec ℕ
  pub timeouts : TimeoutQueue (TimeoutEntry codec)

pub record RetransmitTransporter (env : UdpEnv) : Type 0 where
  pub inner : env.inner.State
  pub timeout_queue : env.timeouts.Queue
  pub peers : HashMap ℕ (PeerState env.codec)
  pub rto : ℕ
  pub rto_cache_duration : ℕ
  pub min_transaction_interval : ℕ
  pub max_outstanding_transactions : ℕ

module _ (env : UdpEnv) where
  open env use {codec}

  abbrev pub UdpOp : Type 0 → Type 0
  UdpOp A = Op ForeignErrorKind (RetransmitTransporter env) A

  -- `self.peers[&peer]` and `self.peer_mut(peer)`.
  abbrev pub peer_mut : {A : Type 0} → ℕ → (PeerState codec → UdpOp A) → UdpOp A
  peer_mut peer k t = elim (get peer t.peers) [ none ↦ panic missing_key | some p ↦ k p t ]

  abbrev pub set_peer : ℕ → PeerState codec → RetransmitTransporter env → RetransmitTransporter env
  set_peer peer p t = record t { peers = insert peer p t.peers }

  -- The peer's state `p` is `self.peers[&peer]`.
  unfoldable pub waiting_time : ℕ → RetransmitTransporter env → PeerState codec → Option ℕ
  waiting_time now t p =
      if ltb now p.last_transaction_start_time
      then none
      else if ltb t.min_transaction_interval (now - p.last_transaction_start_time)
      then none
      else some (t.min_transaction_interval - (now - p.last_transaction_start_time))

  -- The last branch of `start_transaction`: the request is sent.
  unfoldable pub send_request : ℕ → ℕ → codec.Message → PeerState codec → UdpOp (Unit {0})
  send_request now peer request p t = elim (env.inner.start_send now peer request t.inner) [
    | fail e i ↦ fail e (record t { inner = i })
    | panic x ↦ panic x
    | running ↦ running
    | done _ i ↦ elim (Peer.start_transaction codec now request p) [
      | none ↦ panic duration_overflow
      | some (p', entry, delay) ↦ done tt (record t {
        inner = i;
        timeout_queue = env.timeouts.push now entry delay t.timeout_queue;
        peers = insert peer p' t.peers;
      })
    ]
  ]

  unfoldable pub start_with : ℕ → ℕ → codec.Message → Bool → PeerState codec → UdpOp (Unit {0})
  start_with now peer request first p t =
      if p.waiting
      then done tt (set_peer peer (Peer.pending codec request first p) t)
      else (elim (waiting_time now t p) [
        | some duration ↦ done tt (record t {
          timeout_queue = env.timeouts.push now (allow_next_request peer) duration t.timeout_queue;
          peers =
              insert peer (Peer.pending codec request first (record p { waiting = true })) t.peers;
        })
        | none ↦
            if leb t.max_outstanding_transactions (length p.transactions)
            then done tt (set_peer peer (Peer.pending codec request first p) t)
            else send_request now peer request p t
      ])

  -- `if !self.peers.contains_key(&peer) { .. }`.
  unfoldable pub ensure_peer : ℕ → RetransmitTransporter env → RetransmitTransporter env
  ensure_peer peer t =
      if contains_key peer t.peers then t else set_peer peer (Peer.new codec peer t.rto) t

  unfoldable pub start_transaction : ℕ → ℕ → codec.Message → Bool → UdpOp (Unit {0})
  start_transaction now peer request first t =
      peer_mut peer (start_with now peer request first) (ensure_peer peer t)

  -- The filter of `poll_timeout`.
  unfoldable pub is_live : RetransmitTransporter env → TimeoutEntry codec → Bool
  is_live t (retransmit peer request next_rto) = elim (get peer t.peers) [
    | none ↦ false
    | some p ↦ HashSet.contains (codec.transaction_id request) p.transactions
  ]
  is_live t (expire_rto_cache peer cached_rto) = true
  is_live t (allow_next_request peer) = true

  unfoldable pub poll_timeout :
      ℕ → RetransmitTransporter env → Option (TimeoutEntry codec) × RetransmitTransporter env
  poll_timeout now t =
      let (entry, queue) = env.timeouts.filter_pop now (is_live t) t.timeout_queue in
      (entry, record t { timeout_queue = queue })

  -- The end of `handle_pending_request`.
  unfoldable pub drop_idle : ℕ → UdpOp (Unit {0})
  drop_idle peer =
      peer_mut peer λ p t.
        done tt (if Peer.is_idle codec p then record t { peers = remove peer t.peers } else t)

  unfoldable pub handle_pending_request : ℕ → ℕ → UdpOp (Unit {0})
  handle_pending_request now peer t = elim (get peer t.peers) [
    | none ↦ done tt t
    | some p ↦
        let (request, p') = Peer.pop_pending_request codec p in
        elim request [
          | none ↦ drop_idle peer (set_peer peer p' t)
          | some m ↦
              (start_transaction now peer m false >>= λ _. drop_idle peer) (set_peer peer p' t)
        ]
  ]

  unfoldable pub handle_retransmit : ℕ → ℕ → codec.Message → ℕ → UdpOp (Unit {0})
  handle_retransmit now peer request rto t = elim (get peer t.peers) [
    | none ↦ done tt t
    | some p ↦
        elim (Peer.retransmit_request codec env.timeouts now request rto t.rto_cache_duration
          t.timeout_queue p) [
            | none ↦ panic duration_overflow
            | some (none, p', queue) ↦
                done tt (record t { timeout_queue = queue; peers = insert peer p' t.peers })
            | some (some m, p', queue) ↦ elim (env.inner.start_send now peer m t.inner) [
              | done _ i ↦
                  done tt
                    (record t { inner = i; timeout_queue = queue; peers = insert peer p' t.peers })
              | fail e i ↦
                  fail e
                    (record t { inner = i; timeout_queue = queue; peers = insert peer p' t.peers })
              | panic x ↦ panic x
              | running ↦ running
            ]
          ]
  ]

  -- The arm of `ExpireRtoCache` in `poll_send`.
  unfoldable pub expire_cached_rto : ℕ → ℕ → RetransmitTransporter env → RetransmitTransporter env
  expire_cached_rto peer cached_rto t = elim (get peer t.peers) [
    | none ↦ t
    | some p ↦
        if nat_beq p.cached_rto cached_rto
        then set_peer peer (record p { cached_rto = t.rto }) t
        else t
  ]

  -- The body of the loop of `poll_send`.
  unfoldable pub handle_entry : ℕ → TimeoutEntry codec → UdpOp (Unit {0})
  handle_entry now (retransmit peer request next_rto) t =
      handle_retransmit now peer request next_rto t
  handle_entry now (expire_rto_cache peer cached_rto) t =
      done tt (expire_cached_rto peer cached_rto t)
  handle_entry now (allow_next_request peer) t =
      peer_mut peer
        (λ p t. handle_pending_request now peer (set_peer peer (record p { waiting = false }) t)) t
