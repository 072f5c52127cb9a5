-- ===== src/Transport/Udp/Invariant/Calls.antt =====
-- Every call of the UDP transporter keeps the invariant, and looks up no peer that is not there.
use rustun.Prelude.{
  refl, ℕ, ◌≡◌, true, Option, none, some, nat_partial_eq, arith, Option-cases, inl, inr, zero, suc,
  Outcome, Bool-cases,
}
use rustun.Prelude.HashMap.{get, get-insert}
use rustun.Prelude.HashSet.{contains, contains-remove, length-remove-le}
use rustun.Error.{ForeignErrorKind}
use rustun.Transport.{IsTransport, IsTimeoutQueue}
use rustun.Transport.Peer
use rustun.Transport.Peer.{
  PeerState, TimeoutEntry, retransmit, allow_next_request, expire_rto_cache,
}
use rustun.Transport.Udp.{
  UdpEnv, RetransmitTransporter, UdpOp, poll_timeout, is_live, handle_entry, start_transaction,
}
use rustun.Transport.Udp.Send.{
  poll_round, start_send, poll_loop, poll_send, poll_recv, finish_with_peer, finish_transaction,
}
use rustun.Transport.Udp.Invariant.{
  Safe, Safe-and_then, Safe-all, Safe-map, is_allow, is_retransmit, At, Inv,
}
use rustun.Transport.Udp.Invariant.Start.{start_transaction-Good}
use rustun.Transport.Udp.Invariant.Entry.{handle_entry-At, handle_pending_request-At}

module _ (env : UdpEnv) (laws : IsTimeoutQueue env.timeouts)
    (inner_laws : IsTransport env.inner) where
  open env use {codec}

  -- From one peer and transaction id to all of them.
  everywhere :
      {A : Type 0} (r : Outcome ForeignErrorKind (RetransmitTransporter env) A)
      → ((k i : ℕ) → Safe (At env laws none k i) r)
      → Safe (Inv env laws none) r
  everywhere r h =
      Safe-all (λ k s. (i : ℕ) → At env laws none k i s) 0 r
        (λ k. Safe-all (λ i. At env laws none k i) 0 r (h k))

  pub start_send-Inv :
      (now peer : ℕ) (item : codec.Message) (t : RetransmitTransporter env)
      → Inv env laws none t
      → Safe (Inv env laws none) (start_send env now peer item t)
  unfolding start_send
  start_send-Inv now peer item t inv = everywhere _ λ k i. ground (
    arith,
    inv k i,
    inner_laws.start_send-Returns now peer item t.inner,
    Safe-map (start_transaction env now peer item true t) (λ s g. g.0)
        (start_transaction-Good env laws inner_laws now peer k i item true t (inv k i)),
  )

  -- The filter of `poll_timeout` keeps every `AllowNextRequest`, and each `Retransmit` of an
  -- outstanding transaction.
  allow-is_live :
      (k : ℕ) (t : RetransmitTransporter env) (e : TimeoutEntry codec)
      → is_allow env k e ≡ true
      → is_live env t e ≡ true
  unfolding is_live
  allow-is_live k t (retransmit peer request rto) h = ground arith
  allow-is_live k t (expire_rto_cache peer rto) h = ground arith
  allow-is_live k t (allow_next_request peer) h = ground arith

  retransmit-is_live :
      (k i : ℕ) (p : PeerState codec) (t : RetransmitTransporter env)
      → get k t.peers ≡ some p
      → contains i p.transactions ≡ true
      → (e : TimeoutEntry codec) → is_retransmit env k i e ≡ true
      → is_live env t e ≡ true
  unfolding is_live
  retransmit-is_live k i p t hp hc (retransmit peer request rto) h = ground arith
  retransmit-is_live k i p t hp hc (expire_rto_cache peer rto) h = ground arith
  retransmit-is_live k i p t hp hc (allow_next_request peer) h = ground arith

  poll_timeout-Inv :
      (now : ℕ) (t : RetransmitTransporter env)
      → Inv env laws none t
      → Inv env laws (poll_timeout env now t).0 (poll_timeout env now t).1
  unfolding poll_timeout
  poll_timeout-Inv now t inv k i =
      let q = t.timeout_queue in
      let allow =
        laws.count-filter_pop (is_allow env k) (is_live env t) now q (allow-is_live k t) in
      elim (Option-cases (get k t.peers)) [
        | inl e ↦ ground (arith, e, inv k i, allow)
        | inr (p, e) ↦ elim (Bool-cases (contains i p.transactions)) [
          | inl out ↦
              let again =
                laws.count-filter_pop (is_retransmit env k i) (is_live env t) now q
                  (retransmit-is_live k i p t e out) in
              ground (arith, e, inv k i, allow, again)
          | inr gone ↦ ground (arith, e, gone, inv k i, allow)
        ]
      ]

  poll_timeout-is_live :
      (now : ℕ) (t : RetransmitTransporter env) (e : TimeoutEntry codec)
      → (poll_timeout env now t).0 ≡ some e
      → is_live env (poll_timeout env now t).1 e ≡ true
  unfolding poll_timeout is_live
  poll_timeout-is_live now t e h =
      let live = laws.filter_pop-keep (is_live env t) now t.timeout_queue e h in
      is_live-queue e live
    where
      is_live-queue :
          (e : TimeoutEntry codec)
          → is_live env t e ≡ true
          → is_live env (poll_timeout env now t).1 e ≡ true
      is_live-queue (retransmit peer request rto) h = h
      is_live-queue (expire_rto_cache peer rto) h = h
      is_live-queue (allow_next_request peer) h = h

  poll_round-Inv :
      (now : ℕ) (rest : UdpOp env (Unit {0})) (o : Option (TimeoutEntry codec))
      (t : RetransmitTransporter env)
      → ((e : TimeoutEntry codec) → o ≡ some e → is_live env t e ≡ true)
      → Inv env laws o t
      → ((s : RetransmitTransporter env) → Inv env laws none s → Safe (Inv env laws none) (rest s))
      → Safe (Inv env laws none) (poll_round env now rest o t)
  unfolding poll_round
  poll_round-Inv now rest none t live inv next = inv
  poll_round-Inv now rest (some e) t live inv next =
      Safe-and_then (handle_entry env now e t) (λ _. rest)
        (everywhere _ λ k i. handle_entry-At env laws inner_laws now k i e t (live e refl) inv)
        (λ s h. h) (λ _ s h. next s h)

  pub poll_loop-Inv :
      (rounds now : ℕ) (t : RetransmitTransporter env)
      → Inv env laws none t
      → Safe (Inv env laws none) (poll_loop env rounds now t)
  unfolding poll_loop
  poll_loop-Inv zero now t inv = tt
  poll_loop-Inv (suc rounds) now t inv =
      poll_round-Inv now (poll_loop env rounds now) (poll_timeout env now t).0
        (poll_timeout env now t).1 (poll_timeout-is_live now t) (poll_timeout-Inv now t inv)
        (poll_loop-Inv rounds now)

  pub poll_send-Inv :
      (rounds now : ℕ) (t : RetransmitTransporter env)
      → Inv env laws none t
      → Safe (Inv env laws none) (poll_send env rounds now t)
  unfolding poll_send
  poll_send-Inv rounds now t inv =
      Safe-and_then (poll_loop env rounds now t) _ (poll_loop-Inv rounds now t inv) (λ s h. h)
        (λ _ s h. ground (arith, inner_laws.poll_send-Returns now s.inner))

  pub poll_recv-Inv :
      (now : ℕ) (t : RetransmitTransporter env)
      → Inv env laws none t
      → Safe (Inv env laws none) (poll_recv env now t)
  unfolding poll_recv
  poll_recv-Inv now t inv = ground (arith, inner_laws.poll_recv-Returns now t.inner)

  finish_with_peer-At :
      (peer id k i : ℕ) (t : RetransmitTransporter env)
      → At env laws none k i t
      → At env laws none k i (finish_with_peer env peer id t)
  unfolding finish_with_peer Peer.finish_transaction
  finish_with_peer-At peer id k i t h = elim (Option-cases (get peer t.peers)) [
    | inl e ↦ ground arith
    | inr (p, e) ↦ ground (
      arith,
      e,
      get-insert peer k (Peer.finish_transaction codec id p) t.peers,
      contains-remove id i p.transactions,
      length-remove-le id p.transactions,
    )
  ]

  pub finish_transaction-Inv :
      (now peer id : ℕ) (t : RetransmitTransporter env)
      → Inv env laws none t
      → Safe (Inv env laws none) (finish_transaction env now peer id t)
  unfolding finish_transaction
  finish_transaction-Inv now peer id t inv = everywhere _ λ k i.
      handle_pending_request-At env laws inner_laws now peer k i _
        (finish_with_peer-At peer id k i t (inv k i))
