-- ===== src/Server/Driver.antt =====
-- src/server.rs: how `HandlerDriver` handles messages, and its `poll`.
use rustun.Prelude.{
  ℕ, zero, suc, Bool, true, false, none, some, List, [], ◌∷◌, ◌++◌, Op, done, fail, panic, running,
  unreachable, Async, ready, not_ready, ◌>>=◌,
}
use rustun.Error.{ErrorKind, error_from_message}
use rustun.Message.{InvalidMessage}
use rustun.Message.Request.{Request}
use rustun.Message.Indication.{Indication}
use rustun.Message.ErrorResponse.{Response}
use rustun.Channel
use rustun.Channel.{Channel}
use rustun.Channel.Receive.{RecvMessage, request, indication, invalid}
use rustun.Channel.Poll.{Received}
use rustun.Channel.Poll
use rustun.Server.{
  ServerEnv, HandlerDriver, Action, reply, future_reply, no_reply, future_no_reply, Task, replies,
  effects,
}

module _ (env : ServerEnv) where
  open env use {channel}
  open channel use {codec, PeerAddr}

  abbrev pub DriverOp : Type 0 → Type 0
  DriverOp A = Op ErrorKind (HandlerDriver env) A

  -- A call of the driver's channel, with its error converted by `convert`.
  abbrev pub on_channel : {E A : Type 0} → (E → ErrorKind) → Op E (Channel channel) A → DriverOp A
  on_channel convert m d = elim (m d.channel) [
    | done a ch ↦ done a (record d { channel = ch })
    | fail e ch ↦ fail (convert e) (record d { channel = ch })
    | panic x ↦ panic x
    | running ↦ running
  ]

  abbrev pub spawn : Task PeerAddr env.Future → HandlerDriver env → HandlerDriver env
  spawn task d = record d { spawned = task ∷ d.spawned }

  -- What the driver does with the action for an indication: `_ => unreachable!()` for the rest.
  unfoldable pub act_on_cast : Action env.Future ⊥ → DriverOp (Unit {0})
  act_on_cast no_reply d = done tt d
  act_on_cast (future_no_reply f) d = done tt (spawn (effects f) d)
  act_on_cast (reply x) d = panic unreachable
  act_on_cast (future_reply f) d = panic unreachable

  unfoldable pub handle_indication : PeerAddr → Indication codec → DriverOp (Unit {0})
  handle_indication peer m d =
      let (action, handler) = env.handler.handle_cast peer m d.handler in
      act_on_cast action (record d { handler = handler })

  -- What the driver does with the action for a request or an invalid message.
  unfoldable pub act_on_call :
      ℕ → PeerAddr → Action env.Future (Response codec) → DriverOp (Unit {0})
  act_on_call now peer no_reply d = done tt d
  act_on_call now peer (future_no_reply f) d = done tt (spawn (effects f) d)
  act_on_call now peer (reply m) d =
      on_channel error_from_message (Channel.reply channel now peer m) d
  act_on_call now peer (future_reply f) d = done tt (spawn (replies f peer) d)

  unfoldable pub handle_request : ℕ → PeerAddr → Request codec → DriverOp (Unit {0})
  handle_request now peer m d =
      let (action, handler) = env.handler.handle_call peer m d.handler in
      act_on_call now peer action (record d { handler = handler })

  unfoldable pub handle_invalid_message : ℕ → PeerAddr → InvalidMessage → DriverOp (Unit {0})
  handle_invalid_message now peer m d =
      let (action, handler) = env.handler.handle_invalid_message peer m d.handler in
      act_on_call now peer action (record d { handler = handler })

  unfoldable pub handle_message : ℕ → PeerAddr → RecvMessage codec → DriverOp (Unit {0})
  handle_message now peer (indication m) = handle_indication peer m
  handle_message now peer (request m) = handle_request now peer m
  handle_message now peer (invalid m) = handle_invalid_message now peer m

  -- A poll of the channel, whose error is told to the handler before it ends the driver.
  abbrev pub or_tell : {A : Type 0} → Op ErrorKind (Channel channel) A → DriverOp A
  or_tell m d = elim (m d.channel) [
    | done a ch ↦ done a (record d { channel = ch })
    | fail e ch ↦
        fail e (record d { channel = ch; handler = env.handler.handle_channel_error e d.handler })
    | panic x ↦ panic x
    | running ↦ running
  ]

  -- What a part of a round of `poll` says: the driver has ended, or whether it did something.
  pub data Progress : Type 0 where
    ended : Progress
    did : Bool → Progress

  -- The first part of a round, on what the channel has received.
  unfoldable pub on_received : ℕ → Received channel → DriverOp Progress
  on_received now not_ready d = done (did false) d
  on_received now (ready none) d = done ended d
  on_received now (ready (some (peer, m))) d =
      (handle_message now peer m >>= λ _ s. done (did true) s) d

  -- The last part of a round: a response that a future has sent.
  unfoldable pub send_response : ℕ → Bool → List (PeerAddr × Response codec) → DriverOp Progress
  send_response now did_something [] d = done (did did_something) d
  send_response now did_something ((peer, response) ∷ rest) d =
      (on_channel error_from_message (Channel.reply channel now peer response) >>= λ _ s.
      done (did true) s)
        (record d { response_rx = rest })

  unfoldable pub after_received : ℕ → Progress → DriverOp Progress
  after_received now ended d = done ended d
  after_received now (did did_something) d =
      (or_tell (Poll.poll_send channel now) >>= λ _ s.
      send_response now did_something s.response_rx s)
        d

  unfoldable pub poll_round : ℕ → ℕ → DriverOp Progress
  poll_round rounds now =
      or_tell (Poll.poll_recv channel rounds now) >>= on_received now >>= after_received now

  -- `while did_something`.
  unfoldable pub poll_next : DriverOp (Async (Unit {0})) → Progress → DriverOp (Async (Unit {0}))
  poll_next rest ended d = done (ready tt) d
  poll_next rest (did false) d = done not_ready d
  poll_next rest (did true) d = rest d

  -- `HandlerDriver::poll`, with `fuel` rounds, and `rounds` for the loops of the channel in each.
  unfoldable pub poll : ℕ → ℕ → ℕ → DriverOp (Async (Unit {0}))
  poll zero rounds now d = running
  poll (suc fuel) rounds now d = (poll_round rounds now >>= poll_next (poll fuel rounds now)) d

  -- A future of the spawner yields a response.
  unfoldable pub deliver : PeerAddr → Response codec → HandlerDriver env → HandlerDriver env
  deliver peer response d = record d { response_rx = d.response_rx ++ (peer, response) ∷ [] }
