-- ===== src/Server/Only/Receives.antt =====
-- A request that the channel of a server gives to the handler has been received: src/channel.rs,
-- `poll_recv`.
use rustun.Prelude.{
  ℕ, zero, suc, ◌≡◌, refl, inl, Option, none, some, ◌∷◌, Result, ok, err, Outcome, done, fail,
  panic, running, Async, ready, not_ready, Keeps, and_then, arith, subst, sym,
}
use rustun.Error.{ForeignErrorKind, ErrorKind, error_from_transport}
use rustun.Codec.{IsStunCodec}
use rustun.Message.Request
use rustun.Message.Request.{Request}
use rustun.Channel.{ChannelEnv, Channel, ChannelOp}
use rustun.Channel.Poll
use rustun.Channel.Poll.{Received, recv_next, recv_round, recv_loop, handle_timeout}
use rustun.Channel.Receive.{
  RecvMessage, request, indication, invalid, handle_message, handle_request, handle_indication,
  handle_success_response, handle_error_response, handle_response, conclude, handle_broken_message,
}
use rustun.Channel.Steps.Polls.{handle_timeout-Keeps, handle_message-Keeps}
use rustun.Server.Binding.{Rfc5389}
use rustun.Message.Laws.{Any}
use rustun.Server.Only.{
  Sender, IsSender, Logs, HasLog, Asked, OnlyOn, Only-Preserved, got, HasLog-OnlyOn,
}

module _ (env : ChannelEnv) (laws : IsStunCodec env.codec) (Future : Type 0)
    (rfc : Rfc5389 env.codec env.PeerAddr) (s : Sender env.transport)
    (sender : IsSender env.transport s) where
  open env use {codec, PeerAddr}
  open s use {log, Silent}

  -- A request that is returned is in the log.
  abbrev pub CameIn : Received env → Channel env → Type 0
  CameIn (ready (some (peer, request r))) ch =
      Asked env laws Future rfc s sender (log ch.transporter) peer r
  CameIn (ready (some (peer, indication i))) ch = Unit {0}
  CameIn (ready (some (peer, invalid i))) ch = Unit {0}
  CameIn (ready none) ch = Unit {0}
  CameIn not_ready ch = Unit {0}

  abbrev pub Came : Outcome ErrorKind (Channel env) (Received env) → Type 0
  Came (done x ch) = CameIn x ch
  Came (fail e ch) = Unit {0}
  Came (panic x) = Unit {0}
  Came running = Unit {0}

  -- If a request is made of a message, it is that message, and the channel is as before.
  abbrev Made :
      Result codec.Message codec.BrokenMessage
      → Channel env
      → Outcome ErrorKind (Channel env) (Option (RecvMessage codec))
      → Type 0
  Made m ch (done (some (request r)) ch') = (m ≡ ok r.message) × (ch' ≡ ch)
  Made m ch (done (some (indication i)) ch') = Unit {0}
  Made m ch (done (some (invalid i)) ch') = Unit {0}
  Made m ch (done none ch') = Unit {0}
  Made m ch (fail e ch') = Unit {0}
  Made m ch (panic x) = Unit {0}
  Made m ch running = Unit {0}

  handle_message-Made :
      (now : ℕ) (peer : PeerAddr) (m : Result codec.Message codec.BrokenMessage) (ch : Channel env)
      → Made m ch (handle_message env now peer m ch)
  unfolding handle_message handle_request handle_indication handle_success_response
      handle_error_response handle_response conclude Request.from_message handle_broken_message
  handle_message-Made now peer (err b) ch = ground arith
  handle_message-Made now peer (ok m) ch = ground arith

  recv_next-Came :
      (peer : PeerAddr) (m : Result codec.Message codec.BrokenMessage) (ch : Channel env)
      (rest : ChannelOp env ErrorKind (Received env))
      (o : Outcome ErrorKind (Channel env) (Option (RecvMessage codec)))
      → ((ch : Channel env) → OnlyOn env laws Future rfc s sender ch.transporter → Came (rest ch))
      → Made m ch o
      → Keeps (λ ch. OnlyOn env laws Future rfc s sender ch.transporter) o
      → Any (λ e. e ≡ got (peer, m)) (log ch.transporter)
      → Came (and_then o (recv_next env peer rest))
  unfolding recv_next
  recv_next-Came peer m ch rest (done none ch') next h k a = next ch' k
  recv_next-Came peer m ch rest (done (some (request r)) ch') next (e, e') k a =
      subst (λ x. Any (λ e. e ≡ got (peer, ok r.message)) (log x.transporter)) (sym e')
        (subst (λ x. Any (λ e. e ≡ got (peer, x)) (log ch.transporter)) e a)
  recv_next-Came peer m ch rest (done (some (indication i)) ch') next h k a = tt
  recv_next-Came peer m ch rest (done (some (invalid i)) ch') next h k a = tt
  recv_next-Came peer m ch rest (fail e ch') next h k a = tt
  recv_next-Came peer m ch rest (panic x) next h k a = tt
  recv_next-Came peer m ch rest running next h k a = tt

  recv_loop-Came :
      (rounds now : ℕ) (ch : Channel env)
      → OnlyOn env laws Future rfc s sender ch.transporter
      → Came (recv_loop env rounds now ch)
  unfolding recv_loop recv_round
  recv_loop-Came zero now ch h = tt
  recv_loop-Came (suc rounds) now ch (q, h) =
      by_case (env.transport.poll_recv now ch.transporter) (sender.polls_recv now ch.transporter q)
        (recv_loop-Came rounds now)
    where
      by_case :
          (o : Outcome ForeignErrorKind env.transport.State
            (Async (Option (PeerAddr × Result codec.Message codec.BrokenMessage))))
          → Logs (HasLog env.transport s) (log ch.transporter) o
          → ((ch : Channel env)
              → OnlyOn env laws Future rfc s sender ch.transporter
              → Came (recv_loop env rounds now ch))
          → Came (
              and_then {A = Async (Option (PeerAddr × Result codec.Message codec.BrokenMessage))}
                (elim o [
                  | done a t ↦ done a (record ch { transporter = t })
                  | fail e t ↦ fail (error_from_transport e) (record ch { transporter = t })
                  | panic x ↦ panic x
                  | running ↦ running
                ])
                (recv_round env now (recv_loop env rounds now)))
      by_case (done (ready (some (peer, m))) t) k next =
          recv_next-Came peer m (record ch { transporter = t }) (recv_loop env rounds now) _ next
            (handle_message-Made now peer m (record ch { transporter = t }))
            (handle_message-Keeps env (λ ch. OnlyOn env laws Future rfc s sender ch.transporter)
              (Only-Preserved env laws Future rfc s sender) now peer m
              (record ch { transporter = t })
              (HasLog-OnlyOn env laws Future rfc s sender (got (peer, m) ∷ log ch.transporter) t h
                k))
            (subst (Any (λ e. e ≡ got (peer, m))) (sym k.1) (inl refl))
      by_case (done (ready none) t) k next = tt
      by_case (done not_ready t) k next = tt
      by_case (fail e t) k next = tt
      by_case (panic x) k next = tt
      by_case running k next = tt

  timeouts-Came :
      (rounds now : ℕ) (o : Outcome ErrorKind (Channel env) (Unit {0}))
      → Keeps (λ ch. OnlyOn env laws Future rfc s sender ch.transporter) o
      → Came (and_then o (λ _. recv_loop env rounds now))
  timeouts-Came rounds now (done a ch) h = recv_loop-Came rounds now ch h
  timeouts-Came rounds now (fail e ch) h = tt
  timeouts-Came rounds now (panic x) h = tt
  timeouts-Came rounds now running h = tt

  pub poll_recv-Came :
      (rounds now : ℕ) (ch : Channel env)
      → OnlyOn env laws Future rfc s sender ch.transporter
      → Came (Poll.poll_recv env rounds now ch)
  unfolding Poll.poll_recv
  poll_recv-Came rounds now ch h = timeouts-Came rounds now (handle_timeout env rounds now ch) (
      handle_timeout-Keeps env (λ ch. OnlyOn env laws Future rfc s sender ch.transporter)
        (Only-Preserved env laws Future rfc s sender) rounds now ch h)
