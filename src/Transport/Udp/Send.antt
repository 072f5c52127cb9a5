-- ===== src/Transport/Udp/Send.antt =====
-- src/transport/udp.rs, the `Transport` and `StunTransport` of the UDP transporter. The loop of
-- `poll_send` is given the number of rounds that it may take.
use rustun.Prelude.{
  ℕ, zero, suc, true, Option, none, some, done, fail, panic, running, Async, Result, Op,
  if◌then◌else◌, ◌>>=◌, nat_partial_eq,
}
use rustun.Prelude.HashMap.{get}
use rustun.Codec.{MessageClass, class_beq}
use rustun.Error.{ForeignErrorKind}
use rustun.Transport.{StunTransport}
use rustun.Transport.Peer
use rustun.Transport.Peer.{TimeoutEntry}
use rustun.Transport.Udp.{
  UdpEnv, RetransmitTransporter, UdpOp, set_peer, start_transaction, poll_timeout, handle_entry,
  handle_pending_request,
}

module _ (env : UdpEnv) where
  open env use {codec}

  -- A call of the inner transporter.
  abbrev pub on_inner :
      {A : Type 0}
      → Op ForeignErrorKind env.inner.State A
      → Op ForeignErrorKind (RetransmitTransporter env) A
  on_inner m t = elim (m t.inner) [
    | done a i ↦ done a (record t { inner = i })
    | fail e i ↦ fail e (record t { inner = i })
    | panic x ↦ panic x
    | running ↦ running
  ]

  unfoldable pub start_send : ℕ → ℕ → codec.Message → UdpOp env (Unit {0})
  start_send now peer item t =
      if class_beq (codec.class item) MessageClass.request
      then start_transaction env now peer item true t
      else on_inner (env.inner.start_send now peer item) t

  -- A round of the loop of `poll_send`, and the `rest` of the rounds.
  unfoldable pub poll_round :
      ℕ → UdpOp env (Unit {0}) → Option (TimeoutEntry codec) → UdpOp env (Unit {0})
  poll_round now rest none t = done tt t
  poll_round now rest (some e) t = (handle_entry env now e >>= λ _. rest) t

  unfoldable pub poll_loop : ℕ → ℕ → UdpOp env (Unit {0})
  poll_loop zero now t = running
  poll_loop (suc rounds) now t =
      let (entry, t') = poll_timeout env now t in poll_round now (poll_loop rounds now) entry t'

  unfoldable pub poll_send : ℕ → ℕ → UdpOp env (Async (Unit {0}))
  poll_send rounds now = poll_loop rounds now >>= λ _. on_inner (env.inner.poll_send now)

  unfoldable pub poll_recv :
      ℕ → UdpOp env (Async (Option (ℕ × Result codec.Message codec.BrokenMessage)))
  poll_recv now = on_inner (env.inner.poll_recv now)

  -- The first half of `finish_transaction`.
  unfoldable pub finish_with_peer : ℕ → ℕ → RetransmitTransporter env → RetransmitTransporter env
  finish_with_peer peer id t = elim (get peer t.peers) [
    | none ↦ t
    | some p ↦ set_peer env peer (Peer.finish_transaction codec id p) t
  ]

  unfoldable pub finish_transaction : ℕ → ℕ → ℕ → UdpOp env (Unit {0})
  finish_transaction now peer id t =
      handle_pending_request env now peer (finish_with_peer peer id t)

  -- `StunUdpTransporter` as a `StunTransport`.
  abbrev pub udp_transport : ℕ → StunTransport codec ℕ
  udp_transport rounds = record {
    transport = record {
      State = RetransmitTransporter env;
      start_send = start_send;
      poll_send = poll_send rounds;
      poll_recv = poll_recv;
    };
    finish_transaction = finish_transaction;
  }
