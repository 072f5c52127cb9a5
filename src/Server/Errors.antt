-- ===== src/Server/Errors.antt =====
-- Errors and panics of a server's driver: src/server.rs.
use rustun.Prelude.{
  ◌⊎◌, inl, inr, Op, Bool, true, false, List, [], ◌∷◌, and_then, ready, not_ready, zero, suc, refl,
  none, some, ℕ, ◌≡◌, Outcome, done, fail, panic, running, arith,
}
use rustun.Error.{ErrorKind, MessageErrorKind, error_from_message}
use rustun.Message.ErrorResponse.{Response}
use rustun.Channel
use rustun.Channel.Poll
use rustun.Channel.Poll.{Received}
use rustun.Channel.{Channel}
use rustun.Channel.Receive.{RecvMessage, request, indication, invalid}
use rustun.Server.{ServerEnv, HandlerDriver, Action, reply, future_reply, no_reply, future_no_reply}
use rustun.Server.Driver.{
  DriverOp, or_tell, send_response, after_received, on_received, poll, poll_round, poll_next,
  Progress, ended, did, handle_message, handle_indication, handle_request, handle_invalid_message,
  act_on_call, act_on_cast,
}

module _ (env : ServerEnv) where
  open env use {channel}
  open channel use {codec, PeerAddr}

  -- The handler's state after its one call for the message.
  abbrev pub handled : PeerAddr → RecvMessage codec → env.handler.State → env.handler.State
  handled peer (request r) s = (env.handler.handle_call peer r s).1
  handled peer (indication i) s = (env.handler.handle_cast peer i s).1
  handled peer (invalid m) s = (env.handler.handle_invalid_message peer m s).1

  act_on_call-fail :
      (now : ℕ) (peer : PeerAddr) (action : Action env.Future (Response codec))
      (d s : HandlerDriver env) (e : ErrorKind)
      → act_on_call env now peer action d ≡ fail e s
      → (k : MessageErrorKind) × (e ≡ ErrorKind.invalid_message k) × (s.handler ≡ d.handler)
  unfolding act_on_call error_from_message
  act_on_call-fail now peer no_reply d s e h = absurd (ground arith)
  act_on_call-fail now peer (future_no_reply f) d s e h = absurd (ground arith)
  act_on_call-fail now peer (future_reply f) d s e h = absurd (ground arith)
  act_on_call-fail now peer (reply m) d s e h =
      by_case (Channel.reply channel now peer m d.channel) h
    where
      by_case :
          (r : Outcome MessageErrorKind (Channel channel) (Unit {0}))
          → (elim r [
            | done a ch ↦ done a (record d { channel = ch })
            | fail e ch ↦ fail (error_from_message e) (record d { channel = ch })
            | panic x ↦ panic x
            | running ↦ running
          ])
            ≡ fail e s
          → (k : MessageErrorKind) × (e ≡ ErrorKind.invalid_message k) × (s.handler ≡ d.handler)
      by_case (done a ch) h = absurd (ground arith)
      by_case (fail k ch) h = (k, ground arith, ground arith)
      by_case (panic x) h = absurd (ground arith)
      by_case running h = absurd (ground arith)

  act_on_cast-ne-fail :
      (action : Action env.Future ⊥) (d s : HandlerDriver env) (e : ErrorKind)
      → ¬ (act_on_cast env action d ≡ fail e s)
  unfolding act_on_cast
  act_on_cast-ne-fail no_reply d s e h = ground arith
  act_on_cast-ne-fail (future_no_reply f) d s e h = ground arith
  act_on_cast-ne-fail (future_reply f) d s e h = ground arith
  act_on_cast-ne-fail (reply x) d s e h = x

  -- If the driver fails on a message that it has received, the error is an `InvalidMessage` (of the
  -- reply that could not be sent), and the handler is in the state after its call for the message:
  -- `handle_channel_error` is not told.
  pub handle_message-fail :
      (now : ℕ) (peer : PeerAddr) (m : RecvMessage codec) (d s : HandlerDriver env) (e : ErrorKind)
      → handle_message env now peer m d ≡ fail e s
      → (k : MessageErrorKind) × (e ≡ ErrorKind.invalid_message k)
        × (s.handler ≡ handled peer m d.handler)
  unfolding handle_message handle_indication handle_request handle_invalid_message
  handle_message-fail now peer (request r) d s e h = act_on_call-fail now peer _ _ s e h
  handle_message-fail now peer (invalid m) d s e h = act_on_call-fail now peer _ _ s e h
  handle_message-fail now peer (indication i) d s e h =
      absurd (act_on_cast-ne-fail (env.handler.handle_cast peer i d.handler).0 _ s e h)

  -- The error is of a reply that could not be sent, or it is of the channel and the handler was told.
  abbrev pub Accounted : ErrorKind → HandlerDriver env → Type 0
  Accounted e s =
      ((k : MessageErrorKind) × (e ≡ ErrorKind.invalid_message k))
      ⊎ ((h : env.handler.State) × (s.handler ≡ env.handler.handle_channel_error e h))

  abbrev FailsAccounted : {A : Type 0} → Outcome ErrorKind (HandlerDriver env) A → Type 0
  FailsAccounted (done a s) = Unit {0}
  FailsAccounted (fail e s) = Accounted e s
  FailsAccounted (panic x) = Unit {0}
  FailsAccounted running = Unit {0}

  and_then-FailsAccounted :
      {A B : Type 0} (r : Outcome ErrorKind (HandlerDriver env) A) (f : A → DriverOp env B)
      → FailsAccounted r
      → ((a : A) (s : HandlerDriver env) → FailsAccounted (f a s))
      → FailsAccounted (and_then r f)
  and_then-FailsAccounted (done a s) f h next = next a s
  and_then-FailsAccounted (fail e s) f h next = h
  and_then-FailsAccounted (panic x) f h next = tt
  and_then-FailsAccounted running f h next = tt

  or_tell-FailsAccounted :
      {A : Type 0} (m : Op ErrorKind (Channel channel) A) (d : HandlerDriver env)
      → FailsAccounted (or_tell env m d)
  or_tell-FailsAccounted {A = A} m d = by_case (m d.channel)
    where
      by_case :
          (r : Outcome ErrorKind (Channel channel) A)
          → FailsAccounted {A = A} (elim r [
            | done a ch ↦ done a (record d { channel = ch })
            | fail e ch ↦
                fail e (record d {
                  channel = ch;
                  handler = env.handler.handle_channel_error e d.handler;
                })
            | panic x ↦ panic x
            | running ↦ running
          ])
      by_case (done a ch) = tt
      by_case (fail e ch) = inr (d.handler, refl)
      by_case (panic x) = tt
      by_case running = tt

  send_response-FailsAccounted :
      (now : ℕ) (b : Bool) (l : List (PeerAddr × Response codec)) (d : HandlerDriver env)
      → FailsAccounted (send_response env now b l d)
  unfolding send_response error_from_message
  send_response-FailsAccounted now b [] d = tt
  send_response-FailsAccounted now b ((peer, response) ∷ rest) d =
      by_case (Channel.reply channel now peer response d.channel)
    where
      by_case :
          (r : Outcome MessageErrorKind (Channel channel) (Unit {0}))
          → FailsAccounted {A = Progress env} (
              and_then {E = ErrorKind} {S = HandlerDriver env} {A = Unit {0}}
                (elim r [
                  | done a ch ↦ done a (record d { channel = ch; response_rx = rest })
                  | fail e ch ↦
                      fail (error_from_message e) (record d { channel = ch; response_rx = rest })
                  | panic x ↦ panic x
                  | running ↦ running
                ])
                (λ _ s. done (did true) s))
      by_case (done a ch) = tt
      by_case (fail k ch) = inl (k, refl)
      by_case (panic x) = tt
      by_case running = tt

  handle_message-FailsAccounted :
      (now : ℕ) (peer : PeerAddr) (m : RecvMessage codec) (d : HandlerDriver env)
      (r : Outcome ErrorKind (HandlerDriver env) (Unit {0}))
      → handle_message env now peer m d ≡ r
      → FailsAccounted r
  handle_message-FailsAccounted now peer m d (done a s) e = tt
  handle_message-FailsAccounted now peer m d (fail x s) e =
      let (k, i, h) = handle_message-fail now peer m d s x e in inl (k, i)
  handle_message-FailsAccounted now peer m d (panic x) e = tt
  handle_message-FailsAccounted now peer m d running e = tt

  on_received-FailsAccounted :
      (now : ℕ) (item : Received channel) (d : HandlerDriver env)
      → FailsAccounted (on_received env now item d)
  unfolding on_received
  on_received-FailsAccounted now not_ready d = tt
  on_received-FailsAccounted now (ready none) d = tt
  on_received-FailsAccounted now (ready (some (peer, m))) d =
      and_then-FailsAccounted (handle_message env now peer m d) _
        (handle_message-FailsAccounted now peer m d _ refl) (λ a s. tt)

  after_received-FailsAccounted :
      (now : ℕ) (p : Progress env) (d : HandlerDriver env)
      → FailsAccounted (after_received env now p d)
  unfolding after_received
  after_received-FailsAccounted now ended d = tt
  after_received-FailsAccounted now (did b) d =
      and_then-FailsAccounted (or_tell env (Poll.poll_send channel now) d) _
        (or_tell-FailsAccounted (Poll.poll_send channel now) d)
        (λ _ s. send_response-FailsAccounted now b s.response_rx s)

  poll-FailsAccounted :
      (fuel rounds now : ℕ) (d : HandlerDriver env) → FailsAccounted (poll env fuel rounds now d)
  unfolding poll poll_round poll_next
  poll-FailsAccounted zero rounds now d = tt
  poll-FailsAccounted (suc fuel) rounds now d =
      and_then-FailsAccounted (poll_round env rounds now d) _
        (and_then-FailsAccounted (and_then (or_tell env (Poll.poll_recv channel rounds now) d) _) _
          (and_then-FailsAccounted (or_tell env (Poll.poll_recv channel rounds now) d) _
            (or_tell-FailsAccounted (Poll.poll_recv channel rounds now) d)
            (on_received-FailsAccounted now))
          (after_received-FailsAccounted now))
        (next-FailsAccounted (poll-FailsAccounted fuel rounds now))
    where
      next-FailsAccounted :
          ((s : HandlerDriver env) → FailsAccounted (poll env fuel rounds now s))
          → (p : Progress env) (s : HandlerDriver env)
          → FailsAccounted (poll_next env (poll env fuel rounds now) p s)
      next-FailsAccounted ih ended s = tt
      next-FailsAccounted ih (did false) s = tt
      next-FailsAccounted ih (did true) s = ih s

  -- If a poll of a server's driver fails, whatever it did before: the error is an `InvalidMessage`, or
  -- the handler's state is what `handle_channel_error` made of it, told of that error.
  pub poll-fail :
      (fuel rounds now : ℕ) (d s : HandlerDriver env) (e : ErrorKind)
      → poll env fuel rounds now d ≡ fail e s
      → Accounted e s
  poll-fail fuel rounds now d s e h = rw h at (poll-FailsAccounted fuel rounds now d)
