-- ===== src/Transport/Udp/Rounds.antt =====
-- How many rounds the loop of `poll_send` takes: src/transport/udp.rs.
use rustun.Prelude.{
  ℕ, zero, suc, ◌+◌, ◌*◌, ◌≤◌, ◌<◌, ◌≡◌, subst, sym, Bool, true, false, not, Option, none, some,
  Outcome, done, fail, panic, running, Op, Keeps, and_then, Option-cases, inl, inr, arith, nat_beq,
  nat_partial_eq, to_nat,
}
use rustun.Prelude.HashMap.{get, get-insert}
use rustun.Transport.{IsTransport, IsTimedQueue, popped}
use rustun.Transport.Peer
use rustun.Transport.Peer.{
  PeerState, TimeoutEntry, retransmit, expire_rto_cache, allow_next_request,
}
use rustun.Transport.Udp.{
  UdpEnv, UdpOp, RetransmitTransporter, poll_timeout, is_live, handle_retransmit, expire_cached_rto,
  handle_entry, set_peer,
}
use rustun.Transport.Udp.Send.{on_inner, poll_round, poll_loop, poll_send}
use rustun.Transport.Udp.Rtos.{is_bad}
use rustun.Transport.Udp.Pending.{NonePendingIn, handle_pending_request-drops}
use rustun.Transport.Udp.Held.{GoodIn}
use rustun.Transport.Udp.Held.All.{HoldsIn, handle_entry-HoldsIn}

-- The call ends: it returns in a state where `P` holds, or panics.
abbrev pub Ends {ℓ} : {E S A : Type ℓ} → (S → Type 0) → Outcome E S A → Type 0
Ends P (done a s) = P s
Ends P (fail e s) = P s
Ends P (panic x) = Unit {0}
Ends P running = ⊥

Ends-and_then :
    {E S A B : Type 0} {P Q : S → Type 0} (r : Outcome E S A) (f : A → Op E S B)
    → Ends P r
    → Keeps Q r
    → ((a : A) (s : S) → P s → Q s → Ends (λ _. Unit {0}) (f a s))
    → Ends (λ _. Unit {0}) (and_then r f)
Ends-and_then (done a s) f h k next = next a s h k
Ends-and_then (fail e s) f h k next = tt
Ends-and_then (panic x) f h k next = tt
Ends-and_then running f h k next = elim h [ ]

-- An RTO that does not send a request again at once.
abbrev pub positive : ℕ → Bool
positive d = not (nat_beq d 0)

Keeps-any : {E S A : Type 0} (r : Outcome E S A) → Keeps (λ _. Unit {0}) r
Keeps-any (done a s) = tt
Keeps-any (fail e s) = tt
Keeps-any (panic x) = tt
Keeps-any running = tt

module _ (env : UdpEnv) where
  open env use {codec}

  abbrev pub is_any_retransmit : TimeoutEntry codec → Bool
  is_any_retransmit (retransmit peer request next_rto) = true
  is_any_retransmit (expire_rto_cache peer cached_rto) = false
  is_any_retransmit (allow_next_request peer) = false

module _ (env : UdpEnv) (timed : IsTimedQueue env.timeouts) where
  open env use {codec}
  open timed use {laws}

  -- The entries that are due, where a `Retransmit` counts twice, as handling it can add an
  -- `ExpireRtoCache` that is due.
  abbrev pub work : ℕ → RetransmitTransporter env → ℕ
  work now t =
      timed.due now (λ _. true) t.timeout_queue
      + timed.due now (is_any_retransmit env) t.timeout_queue

  abbrev pub NoneSpinning : RetransmitTransporter env → Type 0
  NoneSpinning t = laws.count (is_bad codec positive) t.timeout_queue ≡ 0

  abbrev weight : TimeoutEntry codec → ℕ
  weight e = 1 + to_nat (is_any_retransmit env e)

  -- Less work is left than `n`.
  abbrev Less : ℕ → ℕ → RetransmitTransporter env → Type 0
  Less now n s = NoneSpinning s × (work now s < n)

  handle_retransmit-Less :
      (inner_laws : IsTransport env.inner) (now peer rto : ℕ) (request : codec.Message)
      (t : RetransmitTransporter env)
      → positive rto ≡ true
      → NoneSpinning t
      → Ends (Less now (2 + work now t)) (handle_retransmit env now peer request rto t)
  unfolding handle_retransmit Peer.retransmit_request Peer.double
  handle_retransmit-Less inner_laws now peer rto request t is_positive h =
      elim (Option-cases (get peer t.peers)) [
        | inl e ↦ ground arith
        | inr (p, e) ↦
            let entry : TimeoutEntry codec = retransmit p.peer request (rto * 2) in
            let expiry : TimeoutEntry codec = expire_rto_cache p.peer rto in
            let q = env.timeouts.push now entry rto t.timeout_queue in
            ground (
              arith,
              e,
              inner_laws.start_send-Returns now peer request t.inner,
              laws.count-push (is_bad codec positive) now entry rto t.timeout_queue,
              laws.count-push (is_bad codec positive) now expiry t.rto_cache_duration q,
              timed.due-push now (λ _. true) now entry rto t.timeout_queue,
              timed.due-push now (is_any_retransmit env) now entry rto t.timeout_queue,
              timed.due-push now (λ _. true) now expiry t.rto_cache_duration q,
              timed.due-push now (is_any_retransmit env) now expiry t.rto_cache_duration q,
            )
      ]

  allow-Less :
      (now peer : ℕ) (t : RetransmitTransporter env)
      → HoldsIn env (λ _ _. true) t
      → NoneSpinning t
      → Ends (Less now (1 + work now t)) (handle_entry env now (allow_next_request peer) t)
  unfolding handle_entry
  allow-Less now peer t held h = elim (Option-cases (get peer t.peers)) [
    | inl e ↦ ground (arith, e)
    | inr (p, e) ↦
        let p' : PeerState codec = record p { waiting = false } in
        let t' : RetransmitTransporter env = set_peer env peer p' t in
        let g : GoodIn codec 0 true (some p) = subst (GoodIn codec 0 true) e (held peer 0) in
        let found : get peer t'.peers ≡ some p' = ground (arith, get-insert peer peer p' t.peers) in
        let (s, r, d) =
          handle_pending_request-drops env now peer t'
            (subst (NonePendingIn env) (sym found) g.0) in
        let queue = d.1 in ground (arith, e, r, queue)
  ]

  handle_entry-Less :
      (inner_laws : IsTransport env.inner) (now : ℕ) (e : TimeoutEntry codec)
      (t : RetransmitTransporter env)
      → HoldsIn env (λ _ _. true) t
      → is_bad codec positive e ≡ false
      → NoneSpinning t
      → Ends (Less now (weight e + work now t)) (handle_entry env now e t)
  unfolding handle_entry expire_cached_rto
  handle_entry-Less inner_laws now (retransmit peer request rto) t held is_positive h =
      handle_retransmit-Less inner_laws now peer rto request t (ground (arith, is_positive)) h
  handle_entry-Less inner_laws now (expire_rto_cache peer rto) t held is_positive h = ground arith
  handle_entry-Less inner_laws now (allow_next_request peer) t held is_positive h =
      allow-Less now peer t held h

  -- What the filter of `poll_timeout` leaves, and what it popped.
  pop-work :
      (now : ℕ) (t : RetransmitTransporter env)
      → NoneSpinning t
      → let (o, t') = poll_timeout env now t in
        NoneSpinning t'
        × (popped (is_bad codec positive) o ≡ 0)
        × (popped (λ _. true) o + popped (is_any_retransmit env) o + work now t' ≤ work now t)
  unfolding poll_timeout
  pop-work now t h = ground (
    arith,
    h,
    laws.count-filter_pop-le (is_bad codec positive) (is_live env t) now t.timeout_queue,
    timed.due-filter_pop now (λ _. true) (is_live env t) now t.timeout_queue (omega arith),
    timed.due-filter_pop now (is_any_retransmit env) (is_live env t) now t.timeout_queue
        (omega arith),
  )

  poll_round-Ends :
      (inner_laws : IsTransport env.inner) (now n : ℕ) (rest : UdpOp env (Unit {0}))
      (o : Option (TimeoutEntry codec)) (t : RetransmitTransporter env)
      → HoldsIn env (λ _ _. true) t
      → NoneSpinning t
      → popped (is_bad codec positive) o ≡ 0
      → popped (λ _. true) o + popped (is_any_retransmit env) o + work now t ≤ n
      → ((s : RetransmitTransporter env)
          → HoldsIn env (λ _ _. true) s
          → NoneSpinning s
          → work now s < n
          → Ends (λ _. Unit {0}) (rest s))
      → Ends (λ _. Unit {0}) (poll_round env now rest o t)
  unfolding poll_round
  poll_round-Ends inner_laws now n rest none t held h z le next = tt
  poll_round-Ends inner_laws now n rest (some e) t held h z le next =
      Ends-and_then (handle_entry env now e t) (λ _. rest)
        (handle_entry-Less inner_laws now e t held (ground arith) h)
        (handle_entry-HoldsIn env (λ _ _. true) now e t held)
        (λ _ s l k. next s k l.0 (let l1 = l.1 in omega arith))

  poll_timeout-HoldsIn :
      (now : ℕ) (t : RetransmitTransporter env)
      → HoldsIn env (λ _ _. true) t
      → HoldsIn env (λ _ _. true) (poll_timeout env now t).1
  unfolding poll_timeout
  poll_timeout-HoldsIn now t held = held

  pub poll_loop-Ends :
      (inner_laws : IsTransport env.inner) (rounds now : ℕ) (t : RetransmitTransporter env)
      → HoldsIn env (λ _ _. true) t
      → NoneSpinning t
      → work now t < rounds
      → Ends (λ _. Unit {0}) (poll_loop env rounds now t)
  unfolding poll_loop
  poll_loop-Ends inner_laws zero now t held h lt = absurd (omega arith)
  poll_loop-Ends inner_laws (suc rounds) now t held h lt =
      let (h', z, le) = pop-work now t h in
      poll_round-Ends inner_laws now (work now t) (poll_loop env rounds now)
        (poll_timeout env now t).0 (poll_timeout env now t).1 (poll_timeout-HoldsIn now t held) h' z
        le (λ s k i l. poll_loop-Ends inner_laws rounds now s k i (omega arith))

  pub poll_send-Ends :
      (inner_laws : IsTransport env.inner) (rounds now : ℕ) (t : RetransmitTransporter env)
      → HoldsIn env (λ _ _. true) t
      → NoneSpinning t
      → work now t < rounds
      → Ends (λ _. Unit {0}) (poll_send env rounds now t)
  unfolding poll_send
  poll_send-Ends inner_laws rounds now t held h lt =
      Ends-and_then (poll_loop env rounds now t) (λ _. on_inner env (env.inner.poll_send now))
        (poll_loop-Ends inner_laws rounds now t held h lt) (Keeps-any (poll_loop env rounds now t))
        (λ _ s _ _. ground (arith, inner_laws.poll_send-Returns now s.inner))
