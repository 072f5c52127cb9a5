-- ===== src/Server/Only/Calls.antt =====
-- An answer that a server with `BindingHandler` sends, and what the handler makes of a message:
-- src/server.rs, `handle_message`.
use rustun.Prelude.{
  ℕ, ◌≡◌, ◌≢◌, refl, ◌⊎◌, inl, inr, [], ◌∷◌, Outcome, Op, ok, err, done, fail, panic, running,
  Keeps, Keeps-weaken, ready, some, arith,
}
use rustun.Codec.{IsStunCodec, MessageClass}
use rustun.Error.{ErrorKind, error_from_message, message_error_from_transport}
use rustun.Message.Request.{Request}
use rustun.Message.SuccessResponse
use rustun.Message.ErrorResponse
use rustun.Message.ErrorResponse.{Response}
use rustun.Channel
use rustun.Channel.{ChannelEnv, Channel, response_message}
use rustun.Channel.Receive.{RecvMessage, indication, request, invalid}
use rustun.Channel.Steps.Polls.{on_transport-KeepsOn}
use rustun.Server.{HandlerDriver, Action, reply, no_reply, future_reply, future_no_reply}
use rustun.Server.Binding.{Rfc5389, handle_call}
use rustun.Server.Answers.{binding_server, Answers, handle_call-Responds}
use rustun.Server.Driver.{
  or_tell, on_channel, handle_message, handle_request, handle_indication, handle_invalid_message,
  act_on_call, act_on_cast,
}
use rustun.Server.Only.{
  Sender, IsSender, HasLog, Log, Asked, OnlyAnswers, OnlyOn, Only, HasLog-OnlyOn, sent,
}
use rustun.Server.Only.Receives.{CameIn}

module _ (env : ChannelEnv) (laws : IsStunCodec env.codec) (Future : Type 0)
    (rfc : Rfc5389 env.codec env.PeerAddr) (s : Sender env.transport)
    (sender : IsSender env.transport s) where
  open env use {codec, PeerAddr}
  open s use {log, Silent}

  -- A call of the channel, in the driver.
  pub or_tell-Only :
      {A : Type 0} (m : Op ErrorKind (Channel env) A)
      (d : HandlerDriver (binding_server env Future rfc))
      → Keeps (λ ch. OnlyOn env laws Future rfc s sender ch.transporter) (m d.channel)
      → d.response_rx ≡ []
      → Keeps (Only env laws Future rfc s sender) (or_tell (binding_server env Future rfc) m d)
  or_tell-Only {A} m d k e = by_case (m d.channel) k
    where
      by_case :
          (o : Outcome ErrorKind (Channel env) A)
          → Keeps (λ ch. OnlyOn env laws Future rfc s sender ch.transporter) o
          → Keeps {A = A} (Only env laws Future rfc s sender) (elim o [
            | done a ch ↦ done a (record d { channel = ch })
            | fail x ch ↦ fail x (record d { channel = ch })
            | panic x ↦ panic x
            | running ↦ running
          ])
      by_case (done a ch) k = (k, e)
      by_case (fail x ch) k = (k, e)
      by_case (panic x) k = tt
      by_case running k = tt

  -- An answer that is sent, or is not.
  sends-OnlyOn :
      (peer : PeerAddr) (r : Request codec) (x : Response codec) (l : Log codec PeerAddr)
      (t : env.transport.State)
      → Answers codec laws Future rfc peer r (reply x)
      → Asked env laws Future rfc s sender l peer r
      → OnlyAnswers env laws Future rfc s sender l
      → HasLog env.transport s l t
        ⊎ HasLog env.transport s (sent (peer, response_message env x) ∷ l) t
      → OnlyOn env laws Future rfc s sender t
  sends-OnlyOn peer r x l t a asked h (inl k) = HasLog-OnlyOn env laws Future rfc s sender l t h k
  sends-OnlyOn peer r x l t a asked h (inr k) =
      HasLog-OnlyOn env laws Future rfc s sender (sent (peer, response_message env x) ∷ l) t
        ((r, x, asked, refl, a), h) k

  answer-other :
      (peer : PeerAddr) (r : Request codec) (x : Response codec)
      → Answers codec laws Future rfc peer r (reply x)
      → codec.class (response_message env x) ≢ MessageClass.request
  unfolding SuccessResponse.into_message ErrorResponse.into_message
  answer-other peer r (ok m) (inl (m', b, e, k)) h = ground (arith, e, k.0, h)
  answer-other peer r (ok m) (inr (m', b, e, k)) h = ground (arith, e)
  answer-other peer r (err m) (inl (m', b, e, k)) h = ground (arith, e)
  answer-other peer r (err m) (inr (m', b, e, k)) h = ground (arith, e, k.0, h)

  reply-OnlyOn :
      (now : ℕ) (peer : PeerAddr) (r : Request codec) (x : Response codec) (ch : Channel env)
      → Answers codec laws Future rfc peer r (reply x)
      → Asked env laws Future rfc s sender (log ch.transporter) peer r
      → OnlyOn env laws Future rfc s sender ch.transporter
      → Keeps
          (λ ch. OnlyOn env laws Future rfc s sender ch.transporter)
          (Channel.reply env now peer x ch)
  unfolding Channel.reply
  reply-OnlyOn now peer r x ch a asked (q, h) =
      on_transport-KeepsOn env (λ ch. OnlyOn env laws Future rfc s sender ch.transporter)
        message_error_from_transport (env.transport.start_send now peer (response_message env x)) ch
        (Keeps-weaken _ (λ t. sends-OnlyOn peer r x (log ch.transporter) t a asked h)
          (sender.sends now peer (response_message env x) ch.transporter (answer-other peer r x a)
            q))

  on_channel-Only :
      {E A : Type 0} (convert : E → ErrorKind) (m : Op E (Channel env) A)
      (d : HandlerDriver (binding_server env Future rfc))
      → Keeps (λ ch. OnlyOn env laws Future rfc s sender ch.transporter) (m d.channel)
      → d.response_rx ≡ []
      → Keeps
          (Only env laws Future rfc s sender)
          (on_channel (binding_server env Future rfc) convert m d)
  on_channel-Only {E} {A} convert m d k e = by_case (m d.channel) k
    where
      by_case :
          (o : Outcome E (Channel env) A)
          → Keeps (λ ch. OnlyOn env laws Future rfc s sender ch.transporter) o
          → Keeps {A = A} (Only env laws Future rfc s sender) (elim o [
            | done a ch ↦ done a (record d { channel = ch })
            | fail x ch ↦ fail (convert x) (record d { channel = ch })
            | panic x ↦ panic x
            | running ↦ running
          ])
      by_case (done a ch) k = (k, e)
      by_case (fail x ch) k = (k, e)
      by_case (panic x) k = tt
      by_case running k = tt

  act_on_call-Only :
      (now : ℕ) (peer : PeerAddr) (r : Request codec) (action : Action Future (Response codec))
      (d : HandlerDriver (binding_server env Future rfc))
      → Answers codec laws Future rfc peer r action
      → Asked env laws Future rfc s sender (log d.channel.transporter) peer r
      → Only env laws Future rfc s sender d
      → Keeps
          (Only env laws Future rfc s sender)
          (act_on_call (binding_server env Future rfc) now peer action d)
  unfolding act_on_call
  act_on_call-Only now peer r (reply x) d a asked (h, e) =
      on_channel-Only error_from_message (Channel.reply env now peer x) d
        (reply-OnlyOn now peer r x d.channel a asked h) e
  act_on_call-Only now peer r no_reply d a asked h = h
  act_on_call-Only now peer r (future_reply f) d (inl (m, b, e, k)) asked h = absurd (ground arith)
  act_on_call-Only now peer r (future_reply f) d (inr (m, b, e, k)) asked h = absurd (ground arith)
  act_on_call-Only now peer r (future_no_reply f) d a asked h = h

  pub handle_message-Only :
      (now : ℕ) (peer : PeerAddr) (m : RecvMessage codec)
      (d : HandlerDriver (binding_server env Future rfc))
      → CameIn env laws Future rfc s sender (ready (some (peer, m))) d.channel
      → Only env laws Future rfc s sender d
      → Keeps
          (Only env laws Future rfc s sender)
          (handle_message (binding_server env Future rfc) now peer m d)
  unfolding handle_message handle_request handle_indication handle_invalid_message act_on_cast
      act_on_call
  handle_message-Only now peer (request r) d a h =
      act_on_call-Only now peer r (handle_call codec PeerAddr Future rfc peer r) d
        (handle_call-Responds codec laws Future rfc peer r) a h
  handle_message-Only now peer (indication i) d a h = h
  handle_message-Only now peer (invalid i) d a h = h
