-- ===== src/Transport/Udp/Invariant.antt =====
-- The invariant of the UDP transporter, between the states of the peers and the timeout queue, and
-- what it means that a call is safe.
pub mod Start
pub mod Entry
pub mod Calls
use rustun.Prelude.{
  nat_partial_eq, ℕ, ◌+◌, ◌≤◌, ◌≡◌, Bool, true, false, ◌&&◌, Option, none, some, length, Outcome,
  done, fail, panic, running, Op, duration_overflow, nat_beq, to_nat, and_then,
}
use rustun.Prelude.HashMap.{get, contains_key}
use rustun.Prelude.HashSet.{contains}
use rustun.Transport.{IsTimeoutQueue, popped}
use rustun.Transport.Peer.{
  PeerState, TimeoutEntry, retransmit, expire_rto_cache, allow_next_request,
}
use rustun.Transport.Udp.{UdpEnv, RetransmitTransporter}

-- The outcome is a state where `P` holds, or the overflow of a `Duration`: no lookup of a peer fails.
abbrev pub Safe {ℓ} : {E S A : Type ℓ} → (S → Type 0) → Outcome E S A → Type 0
Safe P (done a s) = P s
Safe P (fail e s) = P s
Safe P (panic x) = x ≡ duration_overflow
Safe P running = Unit {0}

module _ {ℓ} {E S A : Type ℓ} where
  pub Safe-map :
      {P Q : S → Type 0} (r : Outcome E S A) → ((s : S) → P s → Q s) → Safe P r → Safe Q r
  Safe-map (done a s) f h = f s h
  Safe-map (fail e s) f h = f s h
  Safe-map (panic x) f h = h
  Safe-map running f h = h

  pub Safe-all :
      {I : Type 0} (P : I → S → Type 0) (i : I) (r : Outcome E S A)
      → ((i : I) → Safe (P i) r)
      → Safe (λ s. (i : I) → P i s) r
  Safe-all P i (done a s) h = h
  Safe-all P i (fail e s) h = h
  Safe-all P i (panic x) h = h i
  Safe-all P i running h = tt

module _ {ℓ} {E S A B : Type ℓ} where
  -- A sequence is safe if its first call is, and the rest is wherever that call leads.
  pub Safe-and_then :
      {P Q : S → Type 0} (r : Outcome E S A) (f : A → Op E S B)
      → Safe P r
      → ((s : S) → P s → Q s)
      → ((a : A) (s : S) → P s → Safe Q (f a s))
      → Safe Q (and_then r f)
  Safe-and_then (done a s) f h weaken next = next a s h
  Safe-and_then (fail e s) f h weaken next = weaken s h
  Safe-and_then (panic x) f h weaken next = h
  Safe-and_then running f h weaken next = tt

module _ (env : UdpEnv) where
  open env use {codec}

  abbrev pub is_allow : ℕ → TimeoutEntry codec → Bool
  is_allow k (retransmit peer request next_rto) = false
  is_allow k (expire_rto_cache peer cached_rto) = false
  is_allow k (allow_next_request peer) = nat_beq peer k

  abbrev pub is_retransmit : ℕ → ℕ → TimeoutEntry codec → Bool
  is_retransmit k i (retransmit peer request next_rto) =
      nat_beq peer k && nat_beq (codec.transaction_id request) i
  is_retransmit k i (expire_rto_cache peer cached_rto) = false
  is_retransmit k i (allow_next_request peer) = false

module _ (env : UdpEnv) (laws : IsTimeoutQueue env.timeouts) where
  open env use {codec}

  -- The invariant at the peer `k` and the transaction id `i`, where the entry `e` has been popped.
  abbrev pub PeerInv :
      Option (TimeoutEntry codec)
      → ℕ
      → ℕ
      → env.timeouts.Queue
      → ℕ
      → Option (PeerState codec)
      → Type 0
  PeerInv e k i queue max none = popped (is_allow env k) e + laws.count (is_allow env k) queue ≡ 0
  PeerInv e k i queue max (some p) =
      (p.peer ≡ k)
      × (popped (is_allow env k) e + laws.count (is_allow env k) queue ≡ to_nat p.waiting)
      × (contains i p.transactions ≡ true
          → 1 ≤ popped (is_retransmit env k i) e + laws.count (is_retransmit env k i) queue)
      × (length p.transactions ≤ max)

  abbrev pub At : Option (TimeoutEntry codec) → ℕ → ℕ → RetransmitTransporter env → Type 0
  At e k i t = PeerInv e k i t.timeout_queue t.max_outstanding_transactions (get k t.peers)

  abbrev pub Inv : Option (TimeoutEntry codec) → RetransmitTransporter env → Type 0
  Inv e t = (k i : ℕ) → At e k i t

  -- The state of `peer` is there.
  abbrev pub Present : ℕ → RetransmitTransporter env → Type 0
  Present peer t = contains_key peer t.peers ≡ true
