-- ===== src/Transport/Udp/Reach.antt =====
-- The states that a UDP transporter can reach by calls, from the state that its builder makes.
use rustun.Prelude.{
  ℕ, ◌≤◌, ◌≡◌, true, false, none, some, Outcome, done, fail, panic, length, arith, Panic,
  duration_overflow, to_nat, running, nat_partial_eq, Keeps, subst,
}
use rustun.Prelude.HashMap.{get}
use rustun.Prelude.HashSet.{contains}
use rustun.Transport.{IsTransport, IsTimeoutQueue}
use rustun.Transport.Peer.{PeerState}
use rustun.Transport.Udp.{UdpEnv, RetransmitTransporter}
use rustun.Transport.Udp.Send.{start_send, poll_send, poll_recv, finish_transaction}
use rustun.Transport.Udp.Builder.{StunUdpTransporterBuilder, finish}
use rustun.Transport.Udp.Invariant.{Safe, Inv, is_allow, is_retransmit}
use rustun.Transport.Udp.Invariant.Calls.{
  start_send-Inv, poll_send-Inv, poll_recv-Inv, finish_transaction-Inv,
}

-- What a caller of a transporter can do.
pub data Call (M : Type 0) : Type 0 where
  start_send_call : (now peer : ℕ) → M → Call M
  poll_send_call : (rounds now : ℕ) → Call M
  poll_recv_call : (now : ℕ) → Call M
  finish_transaction_call : (now peer id : ℕ) → Call M

-- How a call ended, without its value.
pub data Ended (S : Type 0) : Type 0 where
  in_state : S → Ended S
  panicked : Panic → Ended S
  still_running : Ended S

abbrev pub ended : {E S A : Type 0} → Outcome E S A → Ended S
ended (done a s) = in_state s
ended (fail e s) = in_state s
ended (panic x) = panicked x
ended running = still_running

module _ (env : UdpEnv) where
  open env use {codec}

  unfoldable pub call :
      Call codec.Message → RetransmitTransporter env → Ended (RetransmitTransporter env)
  call (start_send_call now peer item) t = ended (start_send env now peer item t)
  call (poll_send_call rounds now) t = ended (poll_send env rounds now t)
  call (poll_recv_call now) t = ended (poll_recv env now t)
  call (finish_transaction_call now peer id) t = ended (finish_transaction env now peer id t)

  -- The states of a transporter over time.
  pub data Reach : RetransmitTransporter env → Type 0 where
    built : (b : StunUdpTransporterBuilder) (inner : env.inner.State) → Reach (finish env b inner)
    called :
        {t s : RetransmitTransporter env} (c : Call codec.Message)
        → Reach t
        → call c t ≡ in_state s
        → Reach s

abbrev EndedSafe : {S : Type 0} → (S → Type 0) → Ended S → Type 0
EndedSafe P (in_state s) = P s
EndedSafe P (panicked x) = x ≡ duration_overflow
EndedSafe P still_running = Unit {0}

ended-Safe :
    {E S A : Type 0} (P : S → Type 0) (r : Outcome E S A) → Safe P r → EndedSafe P (ended r)
ended-Safe P (done a s) h = h
ended-Safe P (fail e s) h = h
ended-Safe P (panic x) h = h
ended-Safe P running h = tt

pub ended-Keeps :
    {E S A : Type 0} (P : S → Type 0) (r : Outcome E S A) (s : S)
    → Keeps P r
    → ended r ≡ in_state s
    → P s
ended-Keeps P (done a s') s h e = let p : s' ≡ s = ground arith in subst P p h
ended-Keeps P (fail x s') s h e = let p : s' ≡ s = ground arith in subst P p h
ended-Keeps P (panic x) s h e = absurd (ground arith)
ended-Keeps P running s h e = absurd (ground arith)

module _ (env : UdpEnv) (laws : IsTimeoutQueue env.timeouts)
    (inner_laws : IsTransport env.inner) where
  open env use {codec}

  call-Inv :
      (c : Call codec.Message) (t : RetransmitTransporter env)
      → Inv env laws none t
      → EndedSafe (Inv env laws none) (call env c t)
  unfolding call
  call-Inv (start_send_call now peer item) t inv =
      ended-Safe (Inv env laws none) (start_send env now peer item t)
        (start_send-Inv env laws inner_laws now peer item t inv)
  call-Inv (poll_send_call rounds now) t inv =
      ended-Safe (Inv env laws none) (poll_send env rounds now t)
        (poll_send-Inv env laws inner_laws rounds now t inv)
  call-Inv (poll_recv_call now) t inv =
      ended-Safe (Inv env laws none) (poll_recv env now t)
        (poll_recv-Inv env laws inner_laws now t inv)
  call-Inv (finish_transaction_call now peer id) t inv =
      ended-Safe (Inv env laws none) (finish_transaction env now peer id t)
        (finish_transaction-Inv env laws inner_laws now peer id t inv)

  Reach-Inv : {t : RetransmitTransporter env} → Reach env t → Inv env laws none t
  unfolding finish
  Reach-Inv (built b inner) = λ k i. ground (arith, laws.count-new (is_allow env k))
  Reach-Inv (called {t = t} c r e) = rw e at (call-Inv c t (Reach-Inv r))

  -- In every state that a UDP transporter can reach, whatever the peer: the queue holds one
  -- `AllowNextRequest` entry for it if its state is there and waiting, and none otherwise.
  pub Reach-waiting :
      {t : RetransmitTransporter env} (peer : ℕ)
      → Reach env t
      → laws.count (is_allow env peer) t.timeout_queue
        ≡ to_nat (elim (get peer t.peers) [ none ↦ false | some p ↦ p.waiting ])
  Reach-waiting {t} peer r = ground (arith, Reach-Inv r peer 0)

  -- An outstanding transaction of a reachable state has a `Retransmit` entry in the queue, and no peer
  -- has more outstanding transactions than the limit.
  pub Reach-outstanding :
      {t : RetransmitTransporter env} {p : PeerState codec} (peer id : ℕ)
      → Reach env t
      → get peer t.peers ≡ some p
      → contains id p.transactions ≡ true
      → (1 ≤ laws.count (is_retransmit env peer id) t.timeout_queue)
        × (length p.transactions ≤ t.max_outstanding_transactions)
  Reach-outstanding {t} peer id r hp hc = ground (arith, Reach-Inv r peer id)

  -- No call on a reachable state panics at a lookup of a peer (`self.peers[&peer]`, and `peer_mut`
  -- with its `expect("never fails")`): the one panic left is the overflow of a doubled duration.
  pub call-ne-missing_key :
      {t : RetransmitTransporter env} (c : Call codec.Message) (x : Panic)
      → Reach env t
      → call env c t ≡ panicked x
      → x ≡ duration_overflow
  call-ne-missing_key {t} c x r e = rw e at (call-Inv c t (Reach-Inv r))
