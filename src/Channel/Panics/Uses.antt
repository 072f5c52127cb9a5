-- ===== src/Channel/Panics/Uses.antt =====
-- What an owner does with a channel panics only where the transport does: src/channel.rs.
use rustun.Prelude.{
  ℕ, zero, suc, Option, none, some, Result, ok, err, done, Panic, Async, ready, not_ready, arith,
  Option-cases, inl, inr,
}
use rustun.Prelude.HashMap.{get}
use rustun.Error.{ErrorKind, message_error_from_transport, error_from_transport}
use rustun.Codec.{MessageClass}
use rustun.Message.Request
use rustun.Message.Request.{Request}
use rustun.Message.Indication
use rustun.Channel.{
  ChannelEnv, Channel, ChannelOp, Exit, key_partial_eq, on_transport, call, cast, reply,
  response_message,
}
use rustun.Channel.Receive.{
  RecvMessage, handle_indication, handle_request, success_result, error_result, handle_message,
  handle_success_response, handle_error_response, handle_response, conclude,
}
use rustun.Channel.Poll.{
  Received, handle_timeout, recv_next, recv_round, recv_loop, poll_recv, poll_send,
}
use rustun.Channel.Steps.Polls.{handle_message-Keeps, handle_timeout-Keeps, on_transport-KeepsOn}
use rustun.Channel.Below.{Below-Preserved}
use rustun.Channel.Reach.{Use, call_use, cast_use, reply_use, poll_send_use, poll_recv_use}
use rustun.Channel.Panics.{
  Panics, UsePanics, and_then-Panics, TransportPanics, Ok, on_transport-Panics,
  handle_timeout-Panics,
}

module _ (env : ChannelEnv) (X : Panic → Type 0) (P : env.transport.State → Type 0)
    (only : TransportPanics env X P) where
  open env use {codec, PeerAddr}
  open only use {keeps, sends, polls_send, polls_recv, finishes}

  conclude-Panics :
      (now : ℕ) (peer : PeerAddr) (id tx : ℕ) (x : Exit codec) (ch : Channel env)
      → Ok env X P only ch
      → Panics X (conclude env now peer id tx x ch)
  unfolding conclude
  conclude-Panics now peer id tx x ch h = ground (arith, finishes now peer id ch.transporter h)

  handle_response-Panics :
      (result : ℕ → codec.Message → Exit codec) (now : ℕ) (peer : PeerAddr) (m : codec.Message)
      (ch : Channel env)
      → Ok env X P only ch
      → Panics X (handle_response env result now peer m ch)
  unfolding handle_response
  handle_response-Panics result now peer m ch h =
      elim (Option-cases
        (get ⦃e = key_partial_eq env⦄ (peer, codec.transaction_id m) ch.transactions)) [
          | inl absent ↦ rw (Panics, absent) tt
          | inr ((method, tx), found) ↦
              rw (Panics, found)
                (conclude-Panics now peer (codec.transaction_id m) tx (result method m) _ h)
        ]

  handle_message-Panics :
      (now : ℕ) (peer : PeerAddr) (m : Result codec.Message codec.BrokenMessage) (ch : Channel env)
      → Ok env X P only ch
      → Panics X (handle_message env now peer m ch)
  unfolding handle_message handle_success_response handle_error_response
  handle_message-Panics now peer (err broken) ch h = tt
  handle_message-Panics now peer (ok m) ch h = by_case (codec.class m)
    where
      by_case :
          (k : MessageClass)
          → Panics X (elim k [
            | MessageClass.indication ↦ done (some (handle_indication codec m)) ch
            | MessageClass.request ↦ done (some (handle_request codec m)) ch
            | MessageClass.success_response ↦ handle_success_response env now peer m ch
            | MessageClass.error_response ↦ handle_error_response env now peer m ch
          ])
      by_case MessageClass.indication = tt
      by_case MessageClass.request = tt
      by_case MessageClass.success_response =
          handle_response-Panics (success_result codec) now peer m ch h
      by_case MessageClass.error_response =
          handle_response-Panics (error_result codec) now peer m ch h

  recv_next-Panics :
      (peer : PeerAddr) (rest : ChannelOp env ErrorKind (Received env))
      (o : Option (RecvMessage codec)) (s : Channel env)
      → Panics X (rest s)
      → Panics X (recv_next env peer rest o s)
  unfolding recv_next
  recv_next-Panics peer rest none s h = h
  recv_next-Panics peer rest (some x) s h = tt

  recv_round-Panics :
      (now : ℕ) (rest : ChannelOp env ErrorKind (Received env))
      (item : Async (Option (PeerAddr × Result codec.Message codec.BrokenMessage)))
      (ch : Channel env)
      → ((s : Channel env) → Ok env X P only s → Panics X (rest s))
      → Ok env X P only ch
      → Panics X (recv_round env now rest item ch)
  unfolding recv_round
  recv_round-Panics now rest not_ready ch next h = tt
  recv_round-Panics now rest (ready none) ch next h = tt
  recv_round-Panics now rest (ready (some (peer, m))) ch next h =
      and_then-Panics X (Ok env X P only) (handle_message env now peer m ch)
        (recv_next env peer rest) (handle_message-Panics now peer m ch h)
        (handle_message-Keeps env (Ok env X P only) (Below-Preserved env P keeps) now peer m ch h)
        (λ o s k. recv_next-Panics peer rest o s (next s k))

  recv_loop-Panics :
      (rounds now : ℕ) (ch : Channel env)
      → Ok env X P only ch
      → Panics X (recv_loop env rounds now ch)
  unfolding recv_loop
  recv_loop-Panics zero now ch h = tt
  recv_loop-Panics (suc rounds) now ch h =
      and_then-Panics X (Ok env X P only)
        (on_transport env error_from_transport (env.transport.poll_recv now) ch)
        (recv_round env now (recv_loop env rounds now))
        (on_transport-Panics env X P only error_from_transport (env.transport.poll_recv now) ch
          (polls_recv now ch.transporter h))
        (on_transport-KeepsOn env (Ok env X P only) error_from_transport
          (env.transport.poll_recv now) ch (keeps.polls_recv now ch.transporter h))
        (λ item s k.
          recv_round-Panics now (recv_loop env rounds now) item s (recv_loop-Panics rounds now) k)

  poll_recv-Panics :
      (rounds now : ℕ) (ch : Channel env)
      → Ok env X P only ch
      → Panics X (poll_recv env rounds now ch)
  unfolding poll_recv
  poll_recv-Panics rounds now ch h =
      and_then-Panics X (Ok env X P only) (handle_timeout env rounds now ch)
        (λ _. recv_loop env rounds now) (handle_timeout-Panics env X P only rounds now ch h)
        (handle_timeout-Keeps env (Ok env X P only) (Below-Preserved env P keeps) rounds now ch h)
        (λ _ s k. recv_loop-Panics rounds now s k)

  call-Panics :
      (now : ℕ) (peer : PeerAddr) (request : Request codec) (ch : Channel env)
      → Ok env X P only ch
      → Panics X (call env now peer request ch)
  unfolding call Request.into_message
  call-Panics now peer request ch h =
      ground (arith, sends now peer request.message ch.transporter h)

  pub use-Panics : (u : Use env) (ch : Channel env) → Ok env X P only ch → UsePanics env X u ch
  unfolding cast reply poll_send
  use-Panics (call_use now peer request) ch h = call-Panics now peer request ch h
  use-Panics (cast_use now peer indication) ch h =
      on_transport-Panics env X P only message_error_from_transport
        (env.transport.start_send now peer (Indication.into_message codec indication)) ch
        (sends now peer _ ch.transporter h)
  use-Panics (reply_use now peer response) ch h =
      on_transport-Panics env X P only message_error_from_transport
        (env.transport.start_send now peer (response_message env response)) ch
        (sends now peer _ ch.transporter h)
  use-Panics (poll_send_use now) ch h =
      on_transport-Panics env X P only error_from_transport (env.transport.poll_send now) ch
        (polls_send now ch.transporter h)
  use-Panics (poll_recv_use rounds now) ch h = poll_recv-Panics rounds now ch h
