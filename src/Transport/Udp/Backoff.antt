-- ===== src/Transport/Udp/Backoff.antt =====
-- How the RTOs of a UDP transporter grow: src/transport/udp.rs, `retransmit` and its uses.
use rustun.Prelude.{
  ℕ, zero, suc, ◌*◌, ◌≤◌, ◌<◌, ◌≡◌, Bool, true, ◌||◌, ◌&&◌, some, arith, nat_beq, nat_beq_iff,
  nat_partial_eq, ltb, subst, sym, inl, inr, Bool-cases,
}
use rustun.Prelude.HashMap.{get}
use rustun.Transport.{IsTimeoutQueue}
use rustun.Transport.Peer.{PeerState, duration_limit}
use rustun.Transport.Udp.{UdpEnv, RetransmitTransporter}
use rustun.Transport.Udp.Send.{start_send, poll_send, poll_recv, finish_transaction}
use rustun.Transport.Udp.Rtos.{is_bad, Doubles, Good}
use rustun.Transport.Udp.Rtos.Calls.{
  finish-Good, start_send-Good, poll_send-Good, poll_recv-Good, finish_transaction-Good,
}
use rustun.Transport.Udp.Reach.{
  Reach, built, called, in_state, ended-Keeps, call, Call, start_send_call, poll_send_call,
  poll_recv_call, finish_transaction_call,
}

-- `base`, doubled `n` times.
unfoldable pub times_doubled : ℕ → ℕ → ℕ
times_doubled zero base = base
times_doubled (suc n) base = times_doubled n (base * 2)

-- `d` is `base`, doubled at most `n` times.
unfoldable pub is_doubled : ℕ → ℕ → ℕ → Bool
is_doubled zero base d = nat_beq d base
is_doubled (suc n) base d = nat_beq d base || is_doubled n (base * 2) d

is_doubled_refl : (n base : ℕ) → is_doubled n base base ≡ true
unfolding is_doubled
is_doubled_refl zero base = ground arith
is_doubled_refl (suc n) base = ground arith

is_doubled-double :
    (n base d : ℕ)
    → is_doubled n base d ≡ true
    → d * 2 < times_doubled (suc n) base
    → is_doubled n base (d * 2) ≡ true
unfolding is_doubled times_doubled
is_doubled-double zero base d h lt = absurd (ground arith)
is_doubled-double (suc n) base d h lt = elim (Bool-cases (nat_beq d base)) [
  | inl e ↦
      let p : d ≡ base = (nat_beq_iff d base).0 e in
      subst (λ x. is_doubled (suc n) base (x * 2) ≡ true) (sym p)
        (ground (arith, is_doubled_refl n (base * 2)))
  | inr e ↦
      let h' : is_doubled n (base * 2) d ≡ true = rw e at h in
      let g = is_doubled-double n (base * 2) d h' lt in ground (arith, g)
]

is_doubled-times :
    (n base d : ℕ) → is_doubled n base d ≡ true → (k : ℕ) × (k ≤ n) × (d ≡ times_doubled k base)
unfolding is_doubled times_doubled
is_doubled-times zero base d h = (0, omega arith, (nat_beq_iff d base).0 h)
is_doubled-times (suc n) base d h = elim (Bool-cases (nat_beq d base)) [
  | inl e ↦ (0, omega arith, (nat_beq_iff d base).0 e)
  | inr e ↦ let (k, le, p) = is_doubled-times n (base * 2) d (rw e at h) in (suc k, omega arith, p)
]

-- A doubling of a positive RTO overflows at the 94th time at the latest.
abbrev pub most_doublings : ℕ
most_doublings = 93

-- An RTO that the doubling of `base` leads to without an overflow.
abbrev pub is_backoff : ℕ → ℕ → Bool
is_backoff base d = is_doubled most_doublings base d && ltb d duration_limit

limit-times_doubled :
    (base : ℕ) → 1 ≤ base → duration_limit ≤ times_doubled (suc most_doublings) base
unfolding times_doubled
limit-times_doubled base h = omega arith

module _ (base : ℕ) (is_positive : 1 ≤ base) where
  is_backoff-Doubles : Doubles (is_backoff base)
  is_backoff-Doubles d h lt =
      let le = limit-times_doubled base is_positive in
      ground (arith, h, is_doubled-double most_doublings base d)

is_backoff-both :
    (base d : ℕ)
    → is_backoff base d ≡ true
    → (is_doubled most_doublings base d ≡ true) × (d < duration_limit)
is_backoff-both base d h = ground (arith, h)

module _ (env : UdpEnv) (laws : IsTimeoutQueue env.timeouts) where
  open env use {codec}

  call-Good :
      (good : ℕ → Bool) (d : Doubles good) (c : Call codec.Message)
      (t s : RetransmitTransporter env)
      → Good env laws good d t
      → call env c t ≡ in_state s
      → Good env laws good d s
  unfolding call
  call-Good good d (start_send_call now peer m) t s h e =
      ended-Keeps (Good env laws good d) (start_send env now peer m t) s
        (start_send-Good env laws good d now peer m t h) e
  call-Good good d (poll_send_call rounds now) t s h e =
      ended-Keeps (Good env laws good d) (poll_send env rounds now t) s
        (poll_send-Good env laws good d rounds now t h) e
  call-Good good d (poll_recv_call now) t s h e =
      ended-Keeps (Good env laws good d) (poll_recv env now t) s
        (poll_recv-Good env laws good d now t h) e
  call-Good good d (finish_transaction_call now peer id) t s h e =
      ended-Keeps (Good env laws good d) (finish_transaction env now peer id t) s
        (finish_transaction-Good env laws good d now peer id t h) e

  -- The RTO of the builder that made the transporter.
  abbrev pub built_rto : {t : RetransmitTransporter env} → Reach env t → ℕ
  built_rto (built b inner) = b.rto
  built_rto (called c r e) = built_rto r

  Reach-Good :
      (good : ℕ → Bool) (d : Doubles good) {t : RetransmitTransporter env} (r : Reach env t)
      → good (built_rto r) ≡ true
      → Good env laws good d t
  Reach-Good good d (built b inner) h = finish-Good env laws good d b inner h
  Reach-Good good d {t = s} (called {t = t} c r e) h =
      call-Good good d c t s (Reach-Good good d r h) e

  -- In every state that a UDP transporter can reach from an RTO that is positive and that a `Duration`
  -- holds: the RTO that is cached for a peer is that first RTO, doubled at most 93 times, and a
  -- `Duration` holds it; and the next RTO of each entry to send a request again is such a one, too.
  pub Reach-is_backoff :
      {t : RetransmitTransporter env} {p : PeerState codec} (peer : ℕ) (r : Reach env t)
      → 1 ≤ built_rto r
      → built_rto r < duration_limit
      → get peer t.peers ≡ some p
      → ((k : ℕ) × (k ≤ most_doublings) × (p.cached_rto ≡ times_doubled k (built_rto r)))
        × (p.cached_rto < duration_limit)
        × (laws.count (is_bad codec (is_backoff (built_rto r))) t.timeout_queue ≡ 0)
  Reach-is_backoff {t} {p} peer r low high e =
      let base = built_rto r in
      let start = is_doubled_refl most_doublings base in
      let g =
        Reach-Good (is_backoff base) (is_backoff-Doubles base low) r (ground (arith, start, high))
          peer in
      let b : is_backoff base p.cached_rto ≡ true = ground (arith, e, g) in
      let (d, lt) = is_backoff-both base p.cached_rto b in
      (is_doubled-times most_doublings base p.cached_rto d, lt, g.2)
