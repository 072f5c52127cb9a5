-- ===== src/Transport/Udp/Rtos/Calls.antt =====
-- Every call of a UDP transporter keeps what doubling keeps of its RTOs: src/transport/udp.rs.
use rustun.Prelude.{
  ℕ, zero, suc, ◌≡◌, Option, none, some, Keeps, Keeps-and_then, Keeps-all, true, Bool, Option-cases,
  inl, inr, arith, nat_partial_eq,
}
use rustun.Prelude.HashMap.{get}
use rustun.Transport.{IsTimeoutQueue, popped}
use rustun.Transport.Peer
use rustun.Transport.Peer.{PeerState, TimeoutEntry}
use rustun.Transport.Udp.{UdpEnv, UdpOp, RetransmitTransporter, poll_timeout, is_live, handle_entry}
use rustun.Transport.Udp.Send.{
  start_send, poll_round, poll_loop, poll_send, poll_recv, finish_with_peer, finish_transaction,
}
use rustun.Transport.Udp.Builder.{StunUdpTransporterBuilder, finish}
use rustun.Transport.Udp.Rtos.{
  is_bad, Doubles, GoodAt, Good, set_peer-GoodAt, start_transaction-GoodAt,
  handle_pending_request-GoodAt, handle_entry-GoodAt,
}

module _ (env : UdpEnv) (laws : IsTimeoutQueue env.timeouts) (good : ℕ → Bool)
    (doubles : Doubles good) where
  open env use {codec}

  pub finish-Good :
      (b : StunUdpTransporterBuilder) (inner : env.inner.State)
      → good b.rto ≡ true
      → Good env laws good doubles (finish env b inner)
  unfolding finish
  finish-Good b inner h k = ground (arith, h, laws.count-new (is_bad codec good))

  pub start_send-Good :
      (now peer : ℕ) (m : codec.Message) (t : RetransmitTransporter env)
      → Good env laws good doubles t
      → Keeps (Good env laws good doubles) (start_send env now peer m t)
  unfolding start_send
  start_send-Good now peer m t h = Keeps-all (GoodAt env laws good doubles) _ λ k. ground (
    arith,
    h k,
    start_transaction-GoodAt env laws good doubles k now peer m true t (h peer) (h k),
  )

  pub poll_recv-Good :
      (now : ℕ) (t : RetransmitTransporter env)
      → Good env laws good doubles t
      → Keeps (Good env laws good doubles) (poll_recv env now t)
  unfolding poll_recv
  poll_recv-Good now t h = Keeps-all (GoodAt env laws good doubles) _ λ k. ground (arith, h k)

  finish_with_peer-GoodAt :
      (k peer id : ℕ) (t : RetransmitTransporter env)
      → Good env laws good doubles t
      → GoodAt env laws good doubles k (finish_with_peer env peer id t)
  unfolding finish_with_peer Peer.finish_transaction
  finish_with_peer-GoodAt k peer id t h = elim (Option-cases (get peer t.peers)) [
    | inl e ↦ ground (arith, e, h k)
    | inr (p, e) ↦
        let p' : PeerState codec = Peer.finish_transaction codec id p in
        ground (arith, e, h peer, set_peer-GoodAt env laws good doubles k peer p' t (h k))
  ]

  pub finish_transaction-Good :
      (now peer id : ℕ) (t : RetransmitTransporter env)
      → Good env laws good doubles t
      → Keeps (Good env laws good doubles) (finish_transaction env now peer id t)
  unfolding finish_transaction
  finish_transaction-Good now peer id t h = Keeps-all (GoodAt env laws good doubles) _ λ k.
      handle_pending_request-GoodAt env laws good doubles k now peer
        (finish_with_peer env peer id t) (λ k. finish_with_peer-GoodAt k peer id t h)

  pop-Good :
      (now : ℕ) (t : RetransmitTransporter env)
      → Good env laws good doubles t
      → let (o, t') = poll_timeout env now t in
        (popped (is_bad codec good) o ≡ 0) × Good env laws good doubles t'
  unfolding poll_timeout
  pop-Good now t h =
      let le = laws.count-filter_pop-le (is_bad codec good) (is_live env t) now t.timeout_queue in
      (ground (arith, h 0, le), λ k. ground (arith, h k, le))

  poll_round-Good :
      (now : ℕ) (rest : UdpOp env (Unit {0})) (o : Option (TimeoutEntry codec))
      (t : RetransmitTransporter env)
      → popped (is_bad codec good) o ≡ 0
      → Good env laws good doubles t
      → ((s : RetransmitTransporter env)
          → Good env laws good doubles s
          → Keeps (Good env laws good doubles) (rest s))
      → Keeps (Good env laws good doubles) (poll_round env now rest o t)
  unfolding poll_round
  poll_round-Good now rest none t z h next = h
  poll_round-Good now rest (some e) t z h next =
      Keeps-and_then (handle_entry env now e t) (λ _. rest)
        (Keeps-all (GoodAt env laws good doubles) _
          λ k. handle_entry-GoodAt env laws good doubles k now e t (ground arith) h)
        (λ _. next)

  poll_loop-Good :
      (rounds now : ℕ) (t : RetransmitTransporter env)
      → Good env laws good doubles t
      → Keeps (Good env laws good doubles) (poll_loop env rounds now t)
  unfolding poll_loop
  poll_loop-Good zero now t h = tt
  poll_loop-Good (suc rounds) now t h =
      let (z, h') = pop-Good now t h in
      poll_round-Good now (poll_loop env rounds now) _ _ z h' (poll_loop-Good rounds now)

  pub poll_send-Good :
      (rounds now : ℕ) (t : RetransmitTransporter env)
      → Good env laws good doubles t
      → Keeps (Good env laws good doubles) (poll_send env rounds now t)
  unfolding poll_send
  poll_send-Good rounds now t h =
      Keeps-and_then (poll_loop env rounds now t) _ (poll_loop-Good rounds now t h)
        (λ _ s k. Keeps-all (GoodAt env laws good doubles) _ λ i. ground (arith, k i))
