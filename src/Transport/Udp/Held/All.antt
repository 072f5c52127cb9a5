-- ===== src/Transport/Udp/Held/All.antt =====
-- A UDP transporter holds no transaction but those of a set: src/transport/udp.rs, the calls of the
-- transport.
use rustun.Prelude.{
  ℕ, zero, suc, ◌≡◌, refl, Bool, true, false, not, ◌&&◌, Option, none, some, Outcome, fail, Keeps,
  Keeps-and_then, Keeps-all, arith, nat_beq, nat_beq_iff, nat_partial_eq, subst,
}
use rustun.Prelude.HashMap.{get}
use rustun.Codec.{MessageClass, class_beq}
use rustun.Error.{ForeignErrorKind}
use rustun.Transport.Peer.{PeerState, TimeoutEntry}
use rustun.Transport.Udp.{UdpEnv, RetransmitTransporter, poll_timeout, handle_entry, UdpOp}
use rustun.Transport.Udp.Send.{
  on_inner, start_send, poll_round, poll_loop, poll_send, poll_recv, finish_transaction,
}
use rustun.Transport.Udp.Held.{GoodIn, GoodIn-weaken}
use rustun.Transport.Udp.Held.Calls.{
  Held, Fresh, FreshIn, start_send-Held, start_send-fail, on_inner-Held,
}
use rustun.Transport.Udp.Held.Entries.{handle_entry-Held, finish_transaction-Held}

Keeps-each :
    {E S A : Type 0} (P : ℕ → ℕ → S → Type 0) (r : Outcome E S A)
    → ((q i : ℕ) → Keeps (P q i) r)
    → Keeps (λ s. (q i : ℕ) → P q i s) r
Keeps-each P r h = Keeps-all (λ q s. (i : ℕ) → P q i s) r (λ q. Keeps-all (P q) r (h q))

module _ (env : UdpEnv) where
  open env use {codec}

  -- Each transaction that is held, outstanding or kept back, is in the set `b` of peers and ids; and a
  -- request that is kept back is not of an outstanding transaction.
  abbrev pub HoldsIn : (ℕ → ℕ → Bool) → RetransmitTransporter env → Type 0
  HoldsIn b t = (q i : ℕ) → Held env q i (b q i) t

  pub none_in :
      (b : ℕ → ℕ → Bool) (t : RetransmitTransporter env)
      → HoldsIn b t
      → (peer : ℕ) → Held env peer 0 true t
  none_in b t h peer =
      GoodIn-weaken codec 0 (b peer 0) true (get peer t.peers) (λ _. refl) (h peer 0)

  not_in-Fresh :
      (b : ℕ → ℕ → Bool) (peer : ℕ) (m : codec.Message) (t : RetransmitTransporter env)
      → HoldsIn b t
      → b peer (codec.transaction_id m) ≡ false
      → Fresh env peer m t
  not_in-Fresh b peer m t h f = by_case (get peer t.peers) (h peer (codec.transaction_id m))
    where
      by_case :
          (o : Option (PeerState codec))
          → GoodIn codec (codec.transaction_id m) (b peer (codec.transaction_id m)) o
          → FreshIn env m o
      by_case none g = tt
      by_case (some p) (n, o, k) = (ground (arith, f, o), ground (arith, f, k))

  pub start_send-HoldsIn :
      (b d : ℕ → ℕ → Bool) (now peer : ℕ) (m : codec.Message) (t : RetransmitTransporter env)
      → ((q i : ℕ) → b q i ≡ true → d q i ≡ true)
      → (class_beq (codec.class m) MessageClass.request ≡ true
          → (b peer (codec.transaction_id m) ≡ false) × (d peer (codec.transaction_id m) ≡ true))
      → HoldsIn b t
      → Keeps (HoldsIn d) (start_send env now peer m t)
  start_send-HoldsIn b d now peer m t f g h =
      Keeps-each (λ q i. Held env q i (d q i)) (start_send env now peer m t)
        λ q i.
          start_send-Held env q i (d q i) now peer m t
            (λ e. (
              not_in-Fresh b peer m t h (g e).0,
              λ s s'. subst (λ x. d x i ≡ true) s (subst (λ x. d peer x ≡ true) s' (g e).1),
            ))
            (GoodIn-weaken codec i (b q i) (d q i) (get q t.peers) (f q i) (h q i))

  pub start_send-HoldsIn_fail :
      (b : ℕ → ℕ → Bool) (now peer : ℕ) (m : codec.Message) (t s : RetransmitTransporter env)
      (e : ForeignErrorKind)
      → start_send env now peer m t ≡ fail e s
      → HoldsIn b t
      → HoldsIn b s
  start_send-HoldsIn_fail b now peer m t s e r h q i =
      start_send-fail env q i (b q i) now peer m t s e r (h q i)

  pub finish_transaction-HoldsIn :
      (b : ℕ → ℕ → Bool) (now peer id : ℕ) (t : RetransmitTransporter env)
      → HoldsIn b t
      → Keeps
          (HoldsIn (λ q i. not (nat_beq peer q && nat_beq id i) && b q i))
          (finish_transaction env now peer id t)
  finish_transaction-HoldsIn b now peer id t h =
      Keeps-each (λ q i. Held env q i (not (nat_beq peer q && nat_beq id i) && b q i))
        (finish_transaction env now peer id t)
        λ q i.
          finish_transaction-Held env q i (b q i) _ now peer id t
            (λ n e. ground (arith, nat_beq_iff peer q, n, e))
            (λ s n e. ground (arith, nat_beq_iff id i, n, e)) (none_in b t h peer) (h q i)

  pub handle_entry-HoldsIn :
      (b : ℕ → ℕ → Bool) (now : ℕ) (e : TimeoutEntry codec) (t : RetransmitTransporter env)
      → HoldsIn b t
      → Keeps (HoldsIn b) (handle_entry env now e t)
  handle_entry-HoldsIn b now e t h =
      Keeps-each (λ q i. Held env q i (b q i)) (handle_entry env now e t)
        (λ q i. handle_entry-Held env q i (b q i) now e t (none_in b t h) (h q i))

  poll_round-HoldsIn :
      (b : ℕ → ℕ → Bool) (now : ℕ) (rest : UdpOp env (Unit {0})) (o : Option (TimeoutEntry codec))
      (t : RetransmitTransporter env)
      → ((s : RetransmitTransporter env) → HoldsIn b s → Keeps (HoldsIn b) (rest s))
      → HoldsIn b t
      → Keeps (HoldsIn b) (poll_round env now rest o t)
  unfolding poll_round
  poll_round-HoldsIn b now rest none t next h = h
  poll_round-HoldsIn b now rest (some e) t next h =
      Keeps-and_then (handle_entry env now e t) (λ _. rest) (handle_entry-HoldsIn b now e t h)
        (λ _. next)

  poll_loop-HoldsIn :
      (b : ℕ → ℕ → Bool) (rounds now : ℕ) (t : RetransmitTransporter env)
      → HoldsIn b t
      → Keeps (HoldsIn b) (poll_loop env rounds now t)
  unfolding poll_loop poll_timeout
  poll_loop-HoldsIn b zero now t h = tt
  poll_loop-HoldsIn b (suc rounds) now t h =
      poll_round-HoldsIn b now (poll_loop env rounds now) (poll_timeout env now t).0
        (poll_timeout env now t).1 (poll_loop-HoldsIn b rounds now) h

  pub poll_send-HoldsIn :
      (b : ℕ → ℕ → Bool) (rounds now : ℕ) (t : RetransmitTransporter env)
      → HoldsIn b t
      → Keeps (HoldsIn b) (poll_send env rounds now t)
  unfolding poll_send
  poll_send-HoldsIn b rounds now t h =
      Keeps-and_then (poll_loop env rounds now t) (λ _. on_inner env (env.inner.poll_send now))
        (poll_loop-HoldsIn b rounds now t h)
        (λ _ s k.
          Keeps-each (λ q i. Held env q i (b q i)) (on_inner env (env.inner.poll_send now) s)
            (λ q i. on_inner-Held env q i (b q i) (env.inner.poll_send now) s (k q i)))

  pub poll_recv-HoldsIn :
      (b : ℕ → ℕ → Bool) (now : ℕ) (t : RetransmitTransporter env)
      → HoldsIn b t
      → Keeps (HoldsIn b) (poll_recv env now t)
  unfolding poll_recv
  poll_recv-HoldsIn b now t h =
      Keeps-each (λ q i. Held env q i (b q i)) (on_inner env (env.inner.poll_recv now) t)
        (λ q i. on_inner-Held env q i (b q i) (env.inner.poll_recv now) t (h q i))
