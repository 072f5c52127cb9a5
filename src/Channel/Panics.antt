-- ===== src/Channel/Panics.antt =====
-- A channel panics only where its transport does: src/channel.rs.
pub mod Uses
use rustun.Prelude.{
  ℕ, zero, suc, ◌≡◌, refl, Option, none, some, Outcome, done, fail, panic, running, Panic, Keeps,
  and_then, Op, Option-cases, inl, inr,
}
use rustun.Prelude.HashMap.{get}
use rustun.Error.{ForeignErrorKind, ErrorKind, error_from_transport}
use rustun.Message.Request
use rustun.Message.Indication
use rustun.Channel.{
  ChannelEnv, Channel, ChannelOp, Key, key_partial_eq, on_transport, call, cast, reply,
}
use rustun.Channel.Poll.{time_out, timeout_round, handle_timeout, poll_recv, poll_send}
use rustun.Channel.Steps.{pop_timeout}
use rustun.Channel.Steps.Polls.{time_out-Keeps}
use rustun.Channel.Below.{TransportKeeps, Below-Preserved}
use rustun.Channel.Reach.{Use, call_use, cast_use, reply_use, poll_send_use, poll_recv_use}

-- If the call panics, then as `X` says.
abbrev pub Panics {ℓ} : {E S A : Type ℓ} → (Panic → Type 0) → Outcome E S A → Type 0
Panics X (done a s) = Unit {0}
Panics X (fail e s) = Unit {0}
Panics X (panic x) = X x
Panics X running = Unit {0}

pub and_then-Panics :
    {E S A B : Type 0} (X : Panic → Type 0) (P : S → Type 0) (r : Outcome E S A) (f : A → Op E S B)
    → Panics X r
    → Keeps P r
    → ((a : A) (s : S) → P s → Panics X (f a s))
    → Panics X (and_then r f)
and_then-Panics X P (done a s) f h k next = next a s k
and_then-Panics X P (fail e s) f h k next = tt
and_then-Panics X P (panic x) f h k next = h
and_then-Panics X P running f h k next = tt

-- Where `P` holds, the calls of the transport keep it, and panic only as `X` says.
pub record TransportPanics (env : ChannelEnv) (X : Panic → Type 0)
    (P : env.transport.State → Type 0) : Type 0 where
  pub keeps : TransportKeeps env P
  pub sends :
      (now : ℕ) (peer : env.PeerAddr) (m : env.codec.Message) (t : env.transport.State)
      → P t
      → Panics X (env.transport.start_send now peer m t)
  pub polls_send :
      (now : ℕ) (t : env.transport.State) → P t → Panics X (env.transport.poll_send now t)
  pub polls_recv :
      (now : ℕ) (t : env.transport.State) → P t → Panics X (env.transport.poll_recv now t)
  pub finishes :
      (now : ℕ) (peer : env.PeerAddr) (id : ℕ) (t : env.transport.State)
      → P t
      → Panics X (env.transport.finish_transaction now peer id t)

module _ (env : ChannelEnv) (X : Panic → Type 0) where
  -- What an owner does with the channel panics only as `X` says.
  abbrev pub UsePanics : Use env → Channel env → Type 0
  UsePanics (call_use now peer request) ch = Panics X (call env now peer request ch)
  UsePanics (cast_use now peer indication) ch = Panics X (cast env now peer indication ch)
  UsePanics (reply_use now peer response) ch = Panics X (reply env now peer response ch)
  UsePanics (poll_send_use now) ch = Panics X (poll_send env now ch)
  UsePanics (poll_recv_use rounds now) ch = Panics X (poll_recv env rounds now ch)

module _ (env : ChannelEnv) (X : Panic → Type 0) (P : env.transport.State → Type 0)
    (only : TransportPanics env X P) where
  open env use {codec, PeerAddr}
  open only use {keeps, sends, polls_send, polls_recv, finishes}

  abbrev pub Ok : Channel env → Type 0
  Ok ch = P ch.transporter

  pub on_transport-Panics :
      {E A : Type 0} (convert : ForeignErrorKind → E)
      (m : Op ForeignErrorKind env.transport.State A) (ch : Channel env)
      → Panics X (m ch.transporter)
      → Panics X (on_transport env convert m ch)
  on_transport-Panics {A = A} convert m ch = by_case (m ch.transporter)
    where
      by_case :
          (r : Outcome ForeignErrorKind env.transport.State A)
          → Panics X r
          → Panics X (elim r [
            | done a t ↦ done a (record ch { transporter = t })
            | fail e t ↦ fail (convert e) (record ch { transporter = t })
            | panic x ↦ panic x
            | running ↦ running
          ])
      by_case (done a t) h = tt
      by_case (fail e t) h = tt
      by_case (panic x) h = h
      by_case running h = tt

  time_out-Panics :
      (now : ℕ) (k : Key env) (ch : Channel env) → Ok ch → Panics X (time_out env now k ch)
  unfolding time_out
  time_out-Panics now (peer, id) ch h =
      elim (Option-cases (get ⦃e = key_partial_eq env⦄ (peer, id) ch.transactions)) [
        | inl absent ↦
            rw (Panics, absent)
              (on_transport-Panics error_from_transport
                (env.transport.finish_transaction now peer id) ch
                (finishes now peer id ch.transporter h))
        | inr ((method, tx), found) ↦
            rw (Panics, found)
              (on_transport-Panics error_from_transport
                (env.transport.finish_transaction now peer id) _
                (finishes now peer id ch.transporter h))
      ]

  timeout_round-Panics :
      (now : ℕ) (rest : ChannelOp env ErrorKind (Unit {0})) (o : Option (Key env))
      (q : env.timeouts.Queue) (ch : Channel env)
      → pop_timeout env now ch ≡ (o, q)
      → ((s : Channel env) → Ok s → Panics X (rest s))
      → Ok ch
      → Panics X (timeout_round env now rest o (record ch { timeout_queue = q }))
  unfolding timeout_round
  timeout_round-Panics now rest none q ch e next h = tt
  timeout_round-Panics now rest (some k) q ch e next h =
      let s : Channel env = record ch { timeout_queue = q } in
      and_then-Panics X Ok (time_out env now k s) (λ _. rest) (time_out-Panics now k s h)
        (time_out-Keeps env Ok (Below-Preserved env P keeps) now k q ch e h) (λ _. next)

  pub handle_timeout-Panics :
      (rounds now : ℕ) (ch : Channel env) → Ok ch → Panics X (handle_timeout env rounds now ch)
  unfolding handle_timeout
  handle_timeout-Panics zero now ch h = tt
  handle_timeout-Panics (suc rounds) now ch h =
      timeout_round-Panics now (handle_timeout env rounds now) _ _ ch refl
        (handle_timeout-Panics rounds now) h
