-- ===== src/Transport/Udp/Rtos.antt =====
-- The RTOs of a UDP transporter: src/transport/udp.rs.
pub mod Calls
use rustun.Prelude.{
  nat_partial_eq, ℕ, ◌*◌, ◌≡◌, Bool, true, false, not, ◌<◌, Option, none, some, Keeps,
  Keeps-and_then, Option-cases, inl, inr, arith,
}
use rustun.Prelude.HashMap.{get, get-insert, get-remove}
use rustun.Prelude.HashSet
use rustun.Transport.{IsTimeoutQueue}
use rustun.Transport.Peer
use rustun.Codec.{StunCodec}
use rustun.Transport.Peer.{
  duration_limit, PeerState, TimeoutEntry, retransmit, expire_rto_cache, allow_next_request,
}
use rustun.Transport.Udp.{
  UdpEnv, RetransmitTransporter, waiting_time, send_request, start_with, ensure_peer,
  start_transaction, drop_idle, handle_retransmit, expire_cached_rto, handle_entry, set_peer,
  handle_pending_request,
}

-- A `Retransmit` whose next RTO fails the test.
abbrev pub is_bad : (c : StunCodec) → (ℕ → Bool) → TimeoutEntry c → Bool
is_bad c good (retransmit peer request next_rto) = not (good next_rto)
is_bad c good (expire_rto_cache peer cached_rto) = false
is_bad c good (allow_next_request peer) = false

-- Where an RTO passes the test, so does its double, if that does not overflow.
abbrev pub Doubles : (ℕ → Bool) → Type 0
Doubles good = (d : ℕ) → good d ≡ true → d * 2 < duration_limit → good (d * 2) ≡ true

module _ (env : UdpEnv) (laws : IsTimeoutQueue env.timeouts) (good : ℕ → Bool)
    (doubles : Doubles good) where
  open env use {codec}

  abbrev GoodIn : Option (PeerState codec) → Type 0
  GoodIn none = Unit {0}
  GoodIn (some p) = good p.cached_rto ≡ true

  -- The RTO passes the test, and so do that of the peer `k` and those of the requests to send again.
  abbrev pub GoodAt : ℕ → RetransmitTransporter env → Type 0
  GoodAt k t =
      (good t.rto ≡ true)
      × GoodIn (get k t.peers)
      × (laws.count (is_bad codec good) t.timeout_queue ≡ 0)

  abbrev pub Good : RetransmitTransporter env → Type 0
  Good t = (k : ℕ) → GoodAt k t

  pub set_peer-GoodAt :
      (k peer : ℕ) (p : PeerState codec) (t : RetransmitTransporter env)
      → GoodAt k t
      → good p.cached_rto ≡ true
      → GoodAt k (set_peer env peer p t)
  set_peer-GoodAt k peer p t h e = ground (arith, get-insert peer k p t.peers)

  send_request-GoodAt :
      (k now peer : ℕ) (request : codec.Message) (p : PeerState codec)
      (t : RetransmitTransporter env)
      → good p.cached_rto ≡ true
      → GoodAt k t
      → Keeps (GoodAt k) (send_request env now peer request p t)
  unfolding send_request Peer.start_transaction Peer.double
  send_request-GoodAt k now peer request p t e h =
      let p' : PeerState codec = record p {
        transactions = HashSet.insert (codec.transaction_id request) p.transactions;
        last_transaction_start_time = now;
      } in
      ground (
        arith,
        laws.count-push (is_bad codec good) now (retransmit p.peer request (p.cached_rto * 2))
            p.cached_rto t.timeout_queue,
        get-insert peer k p' t.peers,
        doubles p.cached_rto,
      )

  pending-GoodAt :
      (k peer : ℕ) (request : codec.Message) (first : Bool) (p : PeerState codec)
      (t : RetransmitTransporter env)
      → good p.cached_rto ≡ true
      → GoodAt k t
      → GoodAt k (set_peer env peer (Peer.pending codec request first p) t)
  unfolding Peer.pending
  pending-GoodAt k peer request first p t e h =
      set_peer-GoodAt k peer (Peer.pending codec request first p) t h (ground arith)

  start_with-GoodAt :
      (k now peer : ℕ) (request : codec.Message) (first : Bool) (p : PeerState codec)
      (t : RetransmitTransporter env)
      → good p.cached_rto ≡ true
      → GoodAt k t
      → Keeps (GoodAt k) (start_with env now peer request first p t)
  unfolding start_with
  start_with-GoodAt k now peer request first p t e h =
      elim (Option-cases (waiting_time env now t p)) [
        | inl free ↦ ground (
          arith,
          free,
          send_request-GoodAt k now peer request p t e h,
          pending-GoodAt k peer request first p t e h,
        )
        | inr (d, w) ↦ ground (
          arith,
          w,
          pending-GoodAt k peer request first p t e h,
          pending-GoodAt k peer request first (record p { waiting = true }) t e h,
          laws.count-push (is_bad codec good) now (allow_next_request peer) d t.timeout_queue,
        )
      ]

  pub start_transaction-GoodAt :
      (k now peer : ℕ) (request : codec.Message) (first : Bool) (t : RetransmitTransporter env)
      → GoodAt peer t
      → GoodAt k t
      → Keeps (GoodAt k) (start_transaction env now peer request first t)
  unfolding start_transaction ensure_peer Peer.new
  start_transaction-GoodAt k now peer request first t hp h =
      elim (Option-cases (get peer t.peers)) [
        | inl e ↦
            let p : PeerState codec = Peer.new codec peer t.rto in
            ground (
              arith,
              e,
              get-insert peer peer p t.peers,
              start_with-GoodAt k now peer request first p (set_peer env peer p t) (ground arith)
                  (set_peer-GoodAt k peer p t h (ground arith)),
            )
        | inr (p, e) ↦
            ground (arith, e, start_with-GoodAt k now peer request first p t (ground (arith, e)) h)
      ]

  drop_idle-GoodAt :
      (k peer : ℕ) (t : RetransmitTransporter env)
      → GoodAt k t
      → Keeps (GoodAt k) (drop_idle env peer t)
  unfolding drop_idle
  drop_idle-GoodAt k peer t h = ground (arith, get-remove peer k t.peers)

  pub handle_pending_request-GoodAt :
      (k now peer : ℕ) (t : RetransmitTransporter env)
      → Good t
      → Keeps (GoodAt k) (handle_pending_request env now peer t)
  unfolding handle_pending_request Peer.pop_pending_request
  handle_pending_request-GoodAt k now peer t h = elim (Option-cases (get peer t.peers)) [
    | inl e ↦ ground (arith, e, h k)
    | inr (p, e) ↦
        let p' : PeerState codec = (Peer.pop_pending_request codec p).1 in
        let t' : RetransmitTransporter env = set_peer env peer p' t in
        let is_good : good p.cached_rto ≡ true = ground (arith, e, h peer) in
        let h' : (k : ℕ) → GoodAt k t' = λ k. set_peer-GoodAt k peer p' t (h k) is_good in
        elim (Option-cases (Peer.pop_pending_request codec p).0) [
          | inl none_left ↦ ground (arith, e, none_left, drop_idle-GoodAt k peer t' (h' k))
          | inr (m, found) ↦ ground (
            arith,
            e,
            found,
            Keeps-and_then (start_transaction env now peer m false t') (λ _. drop_idle env peer)
                (start_transaction-GoodAt k now peer m false t' (h' peer) (h' k))
                (λ _ s. drop_idle-GoodAt k peer s),
          )
        ]
  ]

  handle_retransmit-GoodAt :
      (k now peer rto : ℕ) (request : codec.Message) (t : RetransmitTransporter env)
      → good rto ≡ true
      → GoodAt k t
      → Keeps (GoodAt k) (handle_retransmit env now peer request rto t)
  unfolding handle_retransmit Peer.retransmit_request Peer.double
  handle_retransmit-GoodAt k now peer rto request t is_good h =
      elim (Option-cases (get peer t.peers)) [
        | inl e ↦ ground arith
        | inr (p, e) ↦
            let entry : TimeoutEntry codec = retransmit p.peer request (rto * 2) in
            let expiry : TimeoutEntry codec = expire_rto_cache p.peer rto in
            let q = env.timeouts.push now entry rto t.timeout_queue in
            ground (
              arith,
              e,
              laws.count-push (is_bad codec good) now entry rto t.timeout_queue,
              laws.count-push (is_bad codec good) now expiry t.rto_cache_duration q,
              get-insert peer k p t.peers,
              doubles rto,
              get-insert peer k (record p { cached_rto = rto }) t.peers,
            )
      ]

  pub handle_entry-GoodAt :
      (k now : ℕ) (e : TimeoutEntry codec) (t : RetransmitTransporter env)
      → is_bad codec good e ≡ false
      → Good t
      → Keeps (GoodAt k) (handle_entry env now e t)
  unfolding handle_entry expire_cached_rto
  handle_entry-GoodAt k now (retransmit peer request rto) t is_good h =
      handle_retransmit-GoodAt k now peer rto request t (ground (arith, is_good)) (h k)
  handle_entry-GoodAt k now (expire_rto_cache peer rto) t is_good h =
      elim (Option-cases (get peer t.peers)) [
        | inl e ↦ ground (arith, e, h k)
        | inr (p, e) ↦
            ground (arith, e, h k, get-insert peer k (record p { cached_rto = t.rto }) t.peers)
      ]
  handle_entry-GoodAt k now (allow_next_request peer) t is_good h =
      elim (Option-cases (get peer t.peers)) [
        | inl e ↦ ground (arith, e)
        | inr (p, e) ↦
            let p' : PeerState codec = record p { waiting = false } in
            let rto : good p.cached_rto ≡ true = ground (arith, e, h peer) in
            ground (
              arith,
              e,
              handle_pending_request-GoodAt k now peer (set_peer env peer p' t)
                  (λ k. set_peer-GoodAt k peer p' t (h k) rto),
            )
      ]
