-- ===== src/Channel/Steps/Polls.antt =====
-- What each step keeps is kept by a poll: src/channel.rs, `poll_recv`.
use rustun.Prelude.{
  ℕ, zero, suc, ◌≡◌, Option, none, some, ◌∷◌, Outcome, Result, ok, err, done, fail, panic, running,
  Keeps, Keeps-and_then, Op, Async, ready, not_ready, Option-cases, inl, inr, refl,
}
use rustun.Prelude.HashMap.{get, remove}
use rustun.Error.{ForeignErrorKind, ErrorKind, error_from_transport}
use rustun.Codec.{MessageClass}
use rustun.Channel.{ChannelEnv, Channel, ChannelOp, Key, Exit, key_partial_eq, on_transport}
use rustun.Channel.Receive.{
  handle_indication, handle_request, RecvMessage, conclude, handle_response,
  handle_success_response, handle_error_response, handle_message, success_result, error_result,
}
use rustun.Channel.Poll.{
  poll_recv, time_out, timeout_round, handle_timeout, recv_next, recv_round, recv_loop, Received,
}
use rustun.Channel.Steps.{
  Ending, failed, succeeded, refused, pop_timeout, end_with, KeepsOn, Preserved, Closed,
  Closed-Preserved, KeepsOn-all,
}

-- A call of the transport by the channel.
pub on_transport-KeepsOn :
    {E A : Type 0} (env : ChannelEnv) (P : Channel env → Type 0) (convert : ForeignErrorKind → E)
    (m : Op ForeignErrorKind env.transport.State A) (ch : Channel env)
    → KeepsOn env P ch (m ch.transporter)
    → Keeps P (on_transport env convert m ch)
on_transport-KeepsOn {A = A} env P convert m ch = by_case (m ch.transporter)
  where
    by_case :
        (r : Outcome ForeignErrorKind env.transport.State A)
        → KeepsOn env P ch r
        → Keeps P (elim r [
          | done a t ↦ done a (record ch { transporter = t })
          | fail e t ↦ fail (convert e) (record ch { transporter = t })
          | panic x ↦ panic x
          | running ↦ running
        ])
    by_case (done a t) h = h
    by_case (fail e t) h = h
    by_case (panic x) h = tt
    by_case running h = tt

module _ (env : ChannelEnv) (P : Channel env → Type 0) (kept : Preserved env P) where
  open env use {codec, PeerAddr}
  open kept use {receives, pops_none, pops_unknown, times_out, ends}

  conclude-Keeps :
      (now : ℕ) (peer : PeerAddr) (id method tx : ℕ) (x : Exit codec) (ch : Channel env)
      → get ⦃e = key_partial_eq env⦄ (peer, id) ch.transactions ≡ some (method, tx)
      → Ending env id method x
      → P ch
      → Keeps P (
          conclude env now peer id tx x (record ch {
            transactions = remove ⦃e = key_partial_eq env⦄ (peer, id) ch.transactions;
          }))
  unfolding conclude
  conclude-Keeps now peer id method tx x ch found y p =
      by_case (env.transport.finish_transaction now peer id ch.transporter)
        (ends now ch (peer, id) method tx x found y p)
        (ends now ch (peer, id) method tx (err none) found (failed none) p)
    where
      by_case :
          (r : Outcome ForeignErrorKind env.transport.State (Unit {0}))
          → KeepsOn env P (end_with env (peer, id) tx x ch) r
          → KeepsOn env P (end_with env (peer, id) tx (err none) ch) r
          → let s = record ch {
            transactions = remove ⦃e = key_partial_eq env⦄ (peer, id) ch.transactions;
          } in
            Keeps {A = Option (RecvMessage codec)} P (elim r [
              | done _ t ↦ done none (record s { transporter = t; exits = (tx, x) ∷ s.exits })
              | fail e t ↦
                  fail
                    (error_from_transport e)
                    (record s { transporter = t; exits = (tx, err none) ∷ s.exits })
              | panic x ↦ panic x
              | running ↦ running
            ])
      by_case (done a t) h k = h
      by_case (fail e t) h k = k
      by_case (panic x) h k = tt
      by_case running h k = tt

  handle_response-Keeps :
      (result : ℕ → codec.Message → Exit codec) (now : ℕ) (peer : PeerAddr) (m : codec.Message)
      (ch : Channel env)
      → ((method : ℕ) → Ending env (codec.transaction_id m) method (result method m))
      → P ch
      → Keeps P (handle_response env result now peer m ch)
  unfolding handle_response
  handle_response-Keeps result now peer m ch y p =
      elim (Option-cases
        (get ⦃e = key_partial_eq env⦄ (peer, codec.transaction_id m) ch.transactions)) [
          | inl absent ↦ rw (Keeps, absent) p
          | inr ((method, tx), found) ↦
              rw (Keeps, found)
                (conclude-Keeps now peer (codec.transaction_id m) method tx (result method m) ch
                  found (y method) p)
        ]

  pub handle_message-Keeps :
      (now : ℕ) (peer : PeerAddr) (m : Result codec.Message codec.BrokenMessage) (ch : Channel env)
      → P ch
      → Keeps P (handle_message env now peer m ch)
  unfolding handle_message handle_success_response handle_error_response
  handle_message-Keeps now peer (err broken) ch p = p
  handle_message-Keeps now peer (ok m) ch p = by_case (codec.class m) refl
    where
      by_case :
          (k : MessageClass)
          → codec.class m ≡ k
          → Keeps P (elim k [
            | MessageClass.indication ↦ done (some (handle_indication codec m)) ch
            | MessageClass.request ↦ done (some (handle_request codec m)) ch
            | MessageClass.success_response ↦ handle_success_response env now peer m ch
            | MessageClass.error_response ↦ handle_error_response env now peer m ch
          ])
      by_case MessageClass.indication e = p
      by_case MessageClass.request e = p
      by_case MessageClass.success_response e =
          handle_response-Keeps (success_result codec) now peer m ch (λ k. succeeded m refl e) p
      by_case MessageClass.error_response e =
          handle_response-Keeps (error_result codec) now peer m ch (λ k. refused m refl e) p

  pub time_out-Keeps :
      (now : ℕ) (k : Key env) (q : env.timeouts.Queue) (ch : Channel env)
      → pop_timeout env now ch ≡ (some k, q)
      → P ch
      → Keeps P (time_out env now k (record ch { timeout_queue = q }))
  unfolding time_out
  time_out-Keeps now (peer, id) q ch e p =
      elim (Option-cases (get ⦃e = key_partial_eq env⦄ (peer, id) ch.transactions)) [
        | inl absent ↦
            rw (Keeps, absent)
              (on_transport-KeepsOn env P error_from_transport
                (env.transport.finish_transaction now peer id) _
                (pops_unknown now ch (peer, id) q e absent p))
        | inr ((method, tx), found) ↦
            rw (Keeps, found)
              (on_transport-KeepsOn env P error_from_transport
                (env.transport.finish_transaction now peer id) _
                (times_out now ch (peer, id) q method tx e found p))
      ]

  timeout_round-Keeps :
      (now : ℕ) (rest : ChannelOp env ErrorKind (Unit {0})) (o : Option (Key env))
      (q : env.timeouts.Queue) (ch : Channel env)
      → pop_timeout env now ch ≡ (o, q)
      → ((s : Channel env) → P s → Keeps P (rest s))
      → P ch
      → Keeps P (timeout_round env now rest o (record ch { timeout_queue = q }))
  unfolding timeout_round
  timeout_round-Keeps now rest none q ch e next p = pops_none now ch q e p
  timeout_round-Keeps now rest (some k) q ch e next p =
      Keeps-and_then (time_out env now k (record ch { timeout_queue = q })) (λ _. rest)
        (time_out-Keeps now k q ch e p) (λ _. next)

  pub handle_timeout-Keeps :
      (rounds now : ℕ) (ch : Channel env) → P ch → Keeps P (handle_timeout env rounds now ch)
  unfolding handle_timeout
  handle_timeout-Keeps zero now ch p = tt
  handle_timeout-Keeps (suc rounds) now ch p =
      timeout_round-Keeps now (handle_timeout env rounds now) _ _ ch refl
        (handle_timeout-Keeps rounds now) p

  recv_next-Keeps :
      (peer : PeerAddr) (rest : ChannelOp env ErrorKind (Received env))
      (o : Option (RecvMessage codec)) (s : Channel env)
      → ((s : Channel env) → P s → Keeps P (rest s))
      → P s
      → Keeps P (recv_next env peer rest o s)
  unfolding recv_next
  recv_next-Keeps peer rest none s next p = next s p
  recv_next-Keeps peer rest (some x) s next p = p

  recv_round-Keeps :
      (now : ℕ) (rest : ChannelOp env ErrorKind (Received env))
      (item : Async (Option (PeerAddr × Result codec.Message codec.BrokenMessage)))
      (ch : Channel env)
      → ((s : Channel env) → P s → Keeps P (rest s))
      → P ch
      → Keeps P (recv_round env now rest item ch)
  unfolding recv_round
  recv_round-Keeps now rest not_ready ch next p = p
  recv_round-Keeps now rest (ready none) ch next p = p
  recv_round-Keeps now rest (ready (some (peer, m))) ch next p =
      Keeps-and_then (handle_message env now peer m ch) (recv_next env peer rest)
        (handle_message-Keeps now peer m ch p) (λ o s. recv_next-Keeps peer rest o s next)

  pub recv_loop-Keeps :
      (rounds now : ℕ) (ch : Channel env) → P ch → Keeps P (recv_loop env rounds now ch)
  unfolding recv_loop
  recv_loop-Keeps zero now ch p = tt
  recv_loop-Keeps (suc rounds) now ch p =
      Keeps-and_then (on_transport env error_from_transport (env.transport.poll_recv now) ch)
        (recv_round env now (recv_loop env rounds now))
        (on_transport-KeepsOn env P error_from_transport (env.transport.poll_recv now) ch
          (receives now ch p))
        (λ item s.
          recv_round-Keeps now (recv_loop env rounds now) item s (recv_loop-Keeps rounds now))

  -- What each step keeps is kept by a whole poll.
  pub poll_recv-Preserved :
      (rounds now : ℕ) (ch : Channel env) → P ch → Keeps P (poll_recv env rounds now ch)
  unfolding poll_recv
  poll_recv-Preserved rounds now ch p =
      Keeps-and_then (handle_timeout env rounds now ch) (λ _. recv_loop env rounds now)
        (handle_timeout-Keeps rounds now ch p) (λ _. recv_loop-Keeps rounds now)

module _ (env : ChannelEnv) (P : Channel env → Type 0) (closed : Closed env P) where
  pub on_transport-Keeps :
      {E A : Type 0} (convert : ForeignErrorKind → E)
      (m : Op ForeignErrorKind env.transport.State A) (ch : Channel env)
      → P ch
      → Keeps P (on_transport env convert m ch)
  on_transport-Keeps convert m ch p =
      on_transport-KeepsOn env P convert m ch
        (KeepsOn-all env P ch (m ch.transporter) (λ t. closed.set_transporter ch t p))

  pub poll_recv-Keeps :
      (rounds now : ℕ) (ch : Channel env) → P ch → Keeps P (poll_recv env rounds now ch)
  poll_recv-Keeps = poll_recv-Preserved env P (Closed-Preserved env P closed)
