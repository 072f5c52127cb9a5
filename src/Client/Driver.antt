-- ===== src/Client/Driver.antt =====
-- src/client.rs: `handle_command` and `poll` of `ChannelDriver`.
use rustun.Prelude.{
  ℕ, zero, suc, some, List, [], ◌∷◌, Result, ok, err, done, fail, panic, running, Op, Async, ready,
  not_ready, ◌>>=◌, if◌then◌else◌, nat_beq, Panic, ◌&&◌,
}
use rustun.Error.{ErrorKind}
use rustun.Channel
use rustun.Channel.{ChannelEnv, Channel}
use rustun.Channel.Poll
use rustun.Client.{Command, call, cast, ChannelDriver, give_up}

module _ (env : ChannelEnv) where
  -- The driver's own calls have no error: `type Error = ()`, and no `Err` is made.
  abbrev pub DriverOp : Type 0 → Type 0
  DriverOp A = Op ⊥ (ChannelDriver env) A

  -- The arms of `handle_command`, by the state of the channel.
  unfoldable pub command_on : ℕ → Command env → Result (Channel env) ErrorKind → DriverOp (Unit {0})
  command_on now (cast peer indication) (err e) d = done tt d
  command_on now (cast peer indication) (ok ch) d = elim (Channel.cast env now peer indication ch) [
    | done _ ch' ↦ done tt (record d { channel = ok ch' })
    | fail _ ch' ↦ done tt (record d { channel = ok ch' })
    | panic x ↦ panic x
    | running ↦ running
  ]
  command_on now (call peer request reply) (err e) d =
      done tt (record d { exits = (reply, err (some e)) ∷ d.exits })
  command_on now (call peer request reply) (ok ch) d = elim (Channel.call env now peer request ch) [
    | done tx ch' ↦ done tt (record d { channel = ok ch'; forwards = (tx, reply) ∷ d.forwards })
    | fail e ch' ↦ panic Panic.unexpected
    | panic x ↦ panic x
    | running ↦ running
  ]

  unfoldable pub handle_command : ℕ → Command env → DriverOp (Unit {0})
  handle_command now command d = command_on now command d.channel d

  -- The loop over the commands that wait.
  unfoldable pub drain : ℕ → List (Command env) → DriverOp (Unit {0})
  drain now [] d = done tt (record d { commands = [] })
  drain now (command ∷ rest) d =
      (handle_command now command >>= λ _. drain now rest) (record d { commands = rest })

  unfoldable pub outstanding : ChannelDriver env → ℕ
  outstanding d = elim d.channel [ ok ch ↦ Channel.outstanding_transactions env ch | err e ↦ 0 ]

  -- The end of a round on the channel `ch`: messages still wait to be sent.
  unfoldable pub poll_sends : ℕ → Channel env → DriverOp (Async (Unit {0}))
  poll_sends now ch d = elim (Poll.poll_send env now ch) [
    | done _ ch' ↦ done not_ready (record d { channel = ok ch' })
    | fail e ch' ↦ done not_ready (give_up env ch' e d)
    | panic x ↦ panic x
    | running ↦ running
  ]

  -- `while self.channel.is_ok()`, from the channel's state: `rest` is the loop after a message.
  unfoldable pub poll_channel :
      ℕ
      → ℕ
      → DriverOp (Async (Unit {0}))
      → Result (Channel env) ErrorKind
      → DriverOp (Async (Unit {0}))
  poll_channel rounds now rest (err e) d = done not_ready d
  poll_channel rounds now rest (ok ch) d = elim (Poll.poll_recv env rounds now ch) [
    | done (ready message) ch' ↦ rest (record d { channel = ok ch' })
    | done not_ready ch' ↦ poll_sends now ch' d
    | fail e ch' ↦ done not_ready (give_up env ch' e d)
    | panic x ↦ panic x
    | running ↦ running
  ]

  unfoldable pub receive_loop : ℕ → ℕ → ℕ → DriverOp (Async (Unit {0}))
  receive_loop zero rounds now d = running
  receive_loop (suc fuel) rounds now d =
      poll_channel rounds now (receive_loop fuel rounds now) d.channel d

  -- `ChannelDriver::poll`: the driver ends when all clients have dropped and no transaction is
  -- outstanding.
  unfoldable pub poll : ℕ → ℕ → ℕ → DriverOp (Async (Unit {0}))
  poll fuel rounds now d =
      (drain now d.commands >>= λ _ s.
      if s.closed && nat_beq (outstanding s) 0
      then done (ready tt) s
      else receive_loop fuel rounds now s)
        d
