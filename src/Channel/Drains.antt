-- ===== src/Channel/Drains.antt =====
-- The loop of `poll_recv` ends: src/channel.rs.
use rustun.Prelude.{
  ℕ, zero, suc, ◌<◌, ◌≤◌, Option, none, some, Outcome, Result, ok, err, done, fail, panic, running,
  Async, ready, not_ready, Keeps, and_then, Op, arith, length,
}
use rustun.Error.{ForeignErrorKind, ErrorKind, error_from_transport}
use rustun.Transport.{IsTimeoutQueue, Returns}
use rustun.Channel.{ChannelEnv, Channel, ChannelOp, key_partial_eq}
use rustun.Channel.Receive.{
  RecvMessage, handle_message, handle_success_response, handle_error_response, handle_response,
  conclude,
}
use rustun.Channel.Poll.{Received, handle_timeout, recv_next, recv_round, recv_loop, poll_recv}
use rustun.Channel.Steps.{Preserved}
use rustun.Channel.Steps.Polls.{handle_message-Keeps, handle_timeout-Keeps}
use rustun.Channel.Timeouts.{handle_timeout-Returns}

module _ (env : ChannelEnv) where
  open env use {codec, PeerAddr}

  -- What `poll_recv` of the transport does to its backlog: each message that is received makes it
  -- smaller.
  abbrev pub Receives :
      (env.transport.State → ℕ)
      → ℕ
      → Outcome ForeignErrorKind env.transport.State
          (Async (Option (PeerAddr × Result codec.Message codec.BrokenMessage)))
      → Type 0
  Receives backlog n (done (ready (some m)) t) = backlog t < n
  Receives backlog n (done (ready none) t) = backlog t ≤ n
  Receives backlog n (done not_ready t) = backlog t ≤ n
  Receives backlog n (fail e t) = backlog t ≤ n
  Receives backlog n (panic x) = ⊥
  Receives backlog n running = ⊥

  -- A transport that has a bounded number of messages to give: its calls return, and to finish a
  -- transaction brings no message.
  pub record Drains : Type 0 where
    pub backlog : env.transport.State → ℕ
    pub receives :
        (now : ℕ) (t : env.transport.State)
        → Receives backlog (backlog t) (env.transport.poll_recv now t)
    pub finish-Returns :
        (now : ℕ) (peer : PeerAddr) (id : ℕ) (t : env.transport.State)
        → Returns (env.transport.finish_transaction now peer id t)
    pub finishes :
        (now n : ℕ) (peer : PeerAddr) (id : ℕ) (t : env.transport.State)
        → backlog t ≤ n
        → Keeps (λ s. backlog s ≤ n) (env.transport.finish_transaction now peer id t)

module _ (env : ChannelEnv) (laws : IsTimeoutQueue env.timeouts) (drains : Drains env) where
  open env use {codec, PeerAddr}
  open drains use {backlog, receives, finish-Returns, finishes}

  abbrev Within : ℕ → Channel env → Type 0
  Within n ch = backlog ch.transporter ≤ n

  Receives-Keeps :
      (n : ℕ)
      (r : Outcome ForeignErrorKind env.transport.State
        (Async (Option (PeerAddr × Result codec.Message codec.BrokenMessage))))
      (m : ℕ)
      → Receives env backlog m r
      → m ≤ n
      → Keeps (λ t. backlog t ≤ n) r
  Receives-Keeps n (done (ready (some x)) t) m h le = omega arith
  Receives-Keeps n (done (ready none) t) m h le = omega arith
  Receives-Keeps n (done not_ready t) m h le = omega arith
  Receives-Keeps n (fail e t) m h le = omega arith
  Receives-Keeps n (panic x) m h le = tt
  Receives-Keeps n running m h le = tt

  Within-Preserved : (n : ℕ) → Preserved env (Within n)
  Within-Preserved n = record {
    receives =
        λ now ch le. Receives-Keeps n _ (backlog ch.transporter) (receives now ch.transporter) le;
    pops_none = λ now ch q e le. le;
    pops_unknown = λ now ch k q e absent le. finishes now n k.0 k.1 ch.transporter le;
    times_out = λ now ch k q method tx e found le. finishes now n k.0 k.1 ch.transporter le;
    ends = λ now ch k method tx x found y le. finishes now n k.0 k.1 ch.transporter le;
  }

  handle_message-Returns :
      (now : ℕ) (peer : PeerAddr) (m : Result codec.Message codec.BrokenMessage) (ch : Channel env)
      → Returns (handle_message env now peer m ch)
  unfolding handle_message handle_success_response handle_error_response handle_response conclude
  handle_message-Returns now peer (err broken) ch = tt
  handle_message-Returns now peer (ok m) ch =
      ground (arith, finish-Returns now peer (codec.transaction_id m) ch.transporter)

  and_then-Returns :
      {E S A B : Type 0} (P : S → Type 0) (r : Outcome E S A) (f : A → Op E S B)
      → Returns r
      → Keeps P r
      → ((a : A) (s : S) → P s → Returns (f a s))
      → Returns (and_then r f)
  and_then-Returns P (done a s) f h k next = next a s k
  and_then-Returns P (fail e s) f h k next = tt
  and_then-Returns P (panic x) f h k next = elim h [ ]
  and_then-Returns P running f h k next = elim h [ ]

  recv_next-Returns :
      (peer : PeerAddr) (rest : ChannelOp env ErrorKind (Received env))
      (o : Option (RecvMessage codec)) (s : Channel env)
      → Returns (rest s)
      → Returns (recv_next env peer rest o s)
  unfolding recv_next
  recv_next-Returns peer rest none s h = h
  recv_next-Returns peer rest (some x) s h = tt

  abbrev Item : Type 0
  Item = Async (Option (PeerAddr × Result codec.Message codec.BrokenMessage))

  -- A round of the loop, on what the transport did.
  received-Returns :
      (rounds now : ℕ) (ch : Channel env)
      → ((s : Channel env) → backlog s.transporter < rounds → Returns (recv_loop env rounds now s))
      → (r : Outcome ForeignErrorKind env.transport.State Item) → Receives env backlog rounds r
      → Returns (
          and_then {E = ErrorKind} {B = Received env}
            (elim r [
              | done a t ↦ done a (record ch { transporter = t })
              | fail e t ↦ fail (error_from_transport e) (record ch { transporter = t })
              | panic x ↦ panic x
              | running ↦ running
            ])
            (recv_round env now (recv_loop env rounds now)))
  unfolding recv_round
  received-Returns rounds now ch next (done (ready (some (peer, m))) t) h =
      let s : Channel env = record ch { transporter = t } in
      and_then-Returns (Within (backlog t)) (handle_message env now peer m s)
        (recv_next env peer (recv_loop env rounds now)) (handle_message-Returns now peer m s)
        (handle_message-Keeps env (Within (backlog t)) (Within-Preserved (backlog t)) now peer m s
          (omega arith))
        (λ o s' le. recv_next-Returns peer (recv_loop env rounds now) o s' (next s' (omega arith)))
  received-Returns rounds now ch next (done (ready none) t) h = tt
  received-Returns rounds now ch next (done not_ready t) h = tt
  received-Returns rounds now ch next (fail e t) h = tt
  received-Returns rounds now ch next (panic x) h = elim h [ ]
  received-Returns rounds now ch next running h = elim h [ ]

  Receives-weaken :
      (m n : ℕ) (r : Outcome ForeignErrorKind env.transport.State Item)
      → m ≤ n
      → Receives env backlog m r
      → Receives env backlog n r
  Receives-weaken m n (done (ready (some x)) t) le h = omega arith
  Receives-weaken m n (done (ready none) t) le h = omega arith
  Receives-weaken m n (done not_ready t) le h = omega arith
  Receives-weaken m n (fail e t) le h = omega arith
  Receives-weaken m n (panic x) le h = h
  Receives-weaken m n running le h = h

  recv_loop-Returns :
      (rounds now : ℕ) (ch : Channel env)
      → backlog ch.transporter < rounds
      → Returns (recv_loop env rounds now ch)
  unfolding recv_loop
  recv_loop-Returns zero now ch lt = absurd (omega arith)
  recv_loop-Returns (suc rounds) now ch lt =
      received-Returns rounds now ch (recv_loop-Returns rounds now)
        (env.transport.poll_recv now ch.transporter)
        (Receives-weaken (backlog ch.transporter) rounds _ (omega arith)
          (receives now ch.transporter))

  -- Where the calls of the transport return, each message that it gives makes its backlog smaller, and
  -- no call makes it larger, `poll_recv` of a channel returns if it is given more rounds than there are
  -- outstanding transactions, and more than the backlog.
  pub poll_recv-Returns :
      (rounds now : ℕ) (ch : Channel env)
      → length ch.transactions < rounds
      → backlog ch.transporter < rounds
      → Returns (poll_recv env rounds now ch)
  unfolding poll_recv
  poll_recv-Returns rounds now ch few small =
      and_then-Returns (Within (backlog ch.transporter)) (handle_timeout env rounds now ch)
        (λ _. recv_loop env rounds now)
        (handle_timeout-Returns env laws finish-Returns rounds now ch few)
        (handle_timeout-Keeps env (Within (backlog ch.transporter))
          (Within-Preserved (backlog ch.transporter)) rounds now ch (omega arith))
        (λ _ s le. recv_loop-Returns rounds now s (omega arith))
