-- ===== src/Server/Only/Senders.antt =====
-- The transports of the servers send nothing of their own accord but requests: src/transport/udp.rs,
-- and src/transport/mod.rs over src/transport/tcp.rs.
use rustun.Prelude.{
  ℕ, zero, suc, ◌≡◌, ◌≢◌, refl, ◌⊎◌, inl, inr, true, false, Option, none, some, [], ◌∷◌, Outcome,
  Op, done, fail, panic, running, Keeps, Keeps-and_then, Keeps-weaken, arith,
}
use rustun.Codec.{StunCodec, MessageClass, class_beq}
use rustun.Error.{ForeignErrorKind}
use rustun.Message.Laws.{class_beq_iff}
use rustun.Transport.{StunTransport, IsTimeoutQueue, popped}
use rustun.Transport.Peer.{TimeoutEntry}
use rustun.Transport.Udp.{
  UdpEnv, RetransmitTransporter, UdpOp, poll_timeout, is_live, handle_pending_request,
}
use rustun.Transport.Udp.Send
use rustun.Transport.Udp.Send.{udp_transport, on_inner, poll_round, poll_loop, finish_with_peer}
use rustun.Server.Only.{Posts, Sender, IsSender, HasLog, Log, Logs, got, sent}
use rustun.Prelude.{Async, ready, not_ready, Result}

Logs-weaken :
    {c : StunCodec} {P S : Type 0} (Q R : Log c P → S → Type 0) (l : Log c P)
    (o : Outcome ForeignErrorKind S (Async (Option (P × Result c.Message c.BrokenMessage))))
    → ((l : Log c P) (x : S) → Q l x → R l x)
    → Logs Q l o
    → Logs R l o
Logs-weaken Q R l (done (ready (some i)) x) f h = f (got i ∷ l) x h
Logs-weaken Q R l (done (ready none) x) f h = f l x h
Logs-weaken Q R l (done not_ready x) f h = f l x h
Logs-weaken Q R l (fail e x) f h = f l x h
Logs-weaken Q R l (panic x) f h = tt
Logs-weaken Q R l running f h = tt

module _ {c : StunCodec} {P : Type 0} (t : StunTransport c P) (posts : Posts t.transport) where
  -- A transport that does nothing when a transaction is finished.
  abbrev pub plain_sender : Sender t
  plain_sender = record { log = posts.log; Silent = λ x. Unit {0} }

  log-HasLog : {l : Log c P} (x : t.State) → posts.log x ≡ l → HasLog t plain_sender l x
  log-HasLog x e = (tt, e)

  either-HasLog :
      (l l' : Log c P) (x : t.State)
      → (posts.log x ≡ l) ⊎ (posts.log x ≡ l')
      → HasLog t plain_sender l x ⊎ HasLog t plain_sender l' x
  either-HasLog l l' x (inl e) = inl (tt, e)
  either-HasLog l l' x (inr e) = inr (tt, e)

  pub plain_sender-IsSender :
      ((now : ℕ) (peer : P) (id : ℕ) (x : t.State) → t.finish_transaction now peer id x ≡ done tt x)
      → IsSender t plain_sender
  plain_sender-IsSender finish_transaction-done = record {
    sends = λ now peer m x k q.
        Keeps-weaken _ (either-HasLog (posts.log x) (sent (peer, m) ∷ posts.log x))
          (posts.start_send now peer m x);
    polls_send = λ now x q. Keeps-weaken _ log-HasLog (posts.poll_send now x);
    polls_recv = λ now x q.
        Logs-weaken (λ l x. posts.log x ≡ l) (HasLog t plain_sender) (posts.log x) _
          (λ l x e. (tt, e)) (posts.poll_recv now x);
    finishes = λ now peer id x q. rw (Keeps, finish_transaction-done now peer id x) (tt, refl);
  }

module _ (env : UdpEnv) (laws : IsTimeoutQueue env.timeouts) (rounds : ℕ)
    (posts : Posts env.inner) where
  open env use {codec}

  abbrev State : Type 0
  State = RetransmitTransporter env

  -- No peer is known and nothing is scheduled, as in a transporter that was given no request.
  abbrev pub udp_sender : Sender (udp_transport env rounds)
  udp_sender = record {
    log = λ t. posts.log t.inner;
    Silent = λ t. (t.peers ≡ []) × (laws.count (λ _. true) t.timeout_queue ≡ 0);
  }

  abbrev Sends : Log codec ℕ → State → Type 0
  Sends = HasLog (udp_transport env rounds) udp_sender

  on_inner-Keeps :
      {A : Type 0} (Q : env.inner.State → Type 0) (R : State → Type 0)
      (m : Op ForeignErrorKind env.inner.State A) (t : State)
      → ((i : env.inner.State) → Q i → R (record t { inner = i }))
      → Keeps Q (m t.inner)
      → Keeps R (on_inner env m t)
  on_inner-Keeps {A} Q R m t f k = by_case (m t.inner) k
    where
      by_case :
          (o : Outcome ForeignErrorKind env.inner.State A)
          → Keeps Q o
          → Keeps {A = A} R (elim o [
            | done a i ↦ done a (record t { inner = i })
            | fail e i ↦ fail e (record t { inner = i })
            | panic x ↦ panic x
            | running ↦ running
          ])
      by_case (done a i) q = f i q
      by_case (fail e i) q = f i q
      by_case (panic x) q = tt
      by_case running q = tt

  on_inner-Logs :
      (l : Log codec ℕ) (Q : Log codec ℕ → env.inner.State → Type 0)
      (R : Log codec ℕ → State → Type 0)
      (m : Op ForeignErrorKind env.inner.State
        (Async (Option (ℕ × Result codec.Message codec.BrokenMessage))))
      (t : State)
      → ((l : Log codec ℕ) (i : env.inner.State) → Q l i → R l (record t { inner = i }))
      → Logs Q l (m t.inner)
      → Logs R l (on_inner env m t)
  on_inner-Logs l Q R m t f k = by_case (m t.inner) k
    where
      by_case :
          (o : Outcome ForeignErrorKind env.inner.State
            (Async (Option (ℕ × Result codec.Message codec.BrokenMessage))))
          → Logs Q l o
          → Logs R l (elim o [
            | done a i ↦ done a (record t { inner = i })
            | fail e i ↦ fail e (record t { inner = i })
            | panic x ↦ panic x
            | running ↦ running
          ])
      by_case (done (ready (some x)) i) q = f (got x ∷ l) i q
      by_case (done (ready none) i) q = f l i q
      by_case (done not_ready i) q = f l i q
      by_case (fail e i) q = f l i q
      by_case (panic x) q = tt
      by_case running q = tt

  poll_round-silent :
      (now : ℕ) (rest : UdpOp env (Unit {0})) (o : Option (TimeoutEntry codec)) (ys : Log codec ℕ)
      (t : State)
      → popped (λ _. true) o ≡ 0
      → Sends ys t
      → Keeps (Sends ys) (poll_round env now rest o t)
  unfolding poll_round
  poll_round-silent now rest none ys t h k = k
  poll_round-silent now rest (some e) ys t h k = absurd (ground arith)

  poll_loop-silent :
      (rounds now : ℕ) (t : State)
      → udp_sender.Silent t
      → Keeps (Sends (posts.log t.inner)) (poll_loop env rounds now t)
  unfolding poll_loop poll_timeout
  poll_loop-silent zero now t h = tt
  poll_loop-silent (suc rounds) now t (h, e) =
      let (o, q) = env.timeouts.filter_pop now (is_live env t) t.timeout_queue in
      let few = laws.count-filter_pop-le (λ _. true) (is_live env t) now t.timeout_queue in
      poll_round-silent now (poll_loop env rounds now) o (posts.log t.inner)
        (record t { timeout_queue = q }) (omega arith) ((h, omega arith), refl)

  poll_send-silent :
      (now : ℕ) (t : State)
      → udp_sender.Silent t
      → Keeps (Sends (posts.log t.inner)) (Send.poll_send env rounds now t)
  unfolding Send.poll_send
  poll_send-silent now t h =
      Keeps-and_then (poll_loop env rounds now t) (λ _. on_inner env (env.inner.poll_send now))
        (poll_loop-silent rounds now t h)
        (λ _ s (k, e).
          on_inner-Keeps (λ i. posts.log i ≡ posts.log s.inner) (Sends (posts.log t.inner))
            (env.inner.poll_send now) s (λ i p. (k, ground (arith, p, e)))
            (posts.poll_send now s.inner))

  finish_transaction-silent :
      (now peer id : ℕ) (t : State)
      → udp_sender.Silent t
      → Send.finish_transaction env now peer id t ≡ done tt t
  unfolding Send.finish_transaction finish_with_peer handle_pending_request
  finish_transaction-silent now peer id t (h, e) = ground (arith, h)

  pub udp_sender-IsSender : IsSender (udp_transport env rounds) udp_sender
  unfolding Send.start_send Send.poll_recv
  udp_sender-IsSender = record {
    sends = λ now peer m t k h.
        rw (Keeps, not_request m k)
          (on_inner-Keeps
            (λ i.
              (posts.log i ≡ posts.log t.inner)
              ⊎ (posts.log i ≡ sent (peer, m) ∷ posts.log t.inner))
            (λ t'. Sends (posts.log t.inner) t' ⊎ Sends (sent (peer, m) ∷ posts.log t.inner) t')
            (env.inner.start_send now peer m) t
            (λ i p. elim p [ inl e ↦ inl (h, e) | inr e ↦ inr (h, e) ])
            (posts.start_send now peer m t.inner));
    polls_send = poll_send-silent;
    polls_recv = λ now t h.
        on_inner-Logs (posts.log t.inner) (λ l i. posts.log i ≡ l) Sends (env.inner.poll_recv now) t
          (λ l i e. (h, e)) (posts.poll_recv now t.inner);
    finishes = λ now peer id t h. rw (Keeps, finish_transaction-silent now peer id t h) (h, refl);
  }
    where
      not_request :
          (m : codec.Message)
          → codec.class m ≢ MessageClass.request
          → class_beq (codec.class m) MessageClass.request ≡ false
      not_request m k = ground (arith, k, (class_beq_iff (codec.class m) MessageClass.request).0)
