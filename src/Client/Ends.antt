-- ===== src/Client/Ends.antt =====
-- When a poll of the client's driver ends, and when it does not: src/client.rs.
use rustun.Prelude.{
  ℕ, zero, suc, ◌≡◌, refl, true, false, Option, none, some, List, [], ◌∷◌, Result, ok, err, Outcome,
  done, fail, panic, running, Async, ready, not_ready, and_then-done, nat_beq, arith, Bool-cases,
  inl, inr, ◌&&◌, if◌then◌else◌,
}
use rustun.Prelude.HashMap.{contains_key}
use rustun.Error.{ErrorKind}
use rustun.Message.ErrorResponse.{Response}
use rustun.Channel.{ChannelEnv, Channel, key_partial_eq}
use rustun.Channel.Poll
use rustun.Channel.Poll.{handle_timeout, timeout_round, recv_loop, recv_round}
use rustun.Client.{Command, call, cast, ChannelDriver, give_up}
use rustun.Client.Driver.{
  DriverOp, command_on, handle_command, drain, outstanding, poll_sends, poll_channel, receive_loop,
  poll,
}

module _ (env : ChannelEnv) where
  -- The outcome is not that the driver has ended.
  abbrev GoesOn : Outcome ⊥ (ChannelDriver env) (Async (Unit {0})) → Type 0
  GoesOn (done (ready x) s) = ⊥
  GoesOn (done not_ready s) = Unit {0}
  GoesOn (fail e s) = Unit {0}
  GoesOn (panic x) = Unit {0}
  GoesOn running = Unit {0}

  poll_channel-GoesOn :
      (rounds now : ℕ) (rest : DriverOp env (Async (Unit {0}))) (r : Result (Channel env) ErrorKind)
      (d : ChannelDriver env)
      → ((s : ChannelDriver env) → GoesOn (rest s))
      → GoesOn (poll_channel env rounds now rest r d)
  unfolding poll_channel poll_sends
  poll_channel-GoesOn rounds now rest (err x) d next = tt
  poll_channel-GoesOn rounds now rest (ok ch) d next = by_case (Poll.poll_recv env rounds now ch)
    where
      by_case :
          (r : Outcome ErrorKind (Channel env) (Poll.Received env))
          → GoesOn (elim r [
            | done (ready message) ch' ↦ rest (record d { channel = ok ch' })
            | done not_ready ch' ↦ poll_sends env now ch' d
            | fail e ch' ↦ done not_ready (give_up env ch' e d)
            | panic x ↦ panic x
            | running ↦ running
          ])
      by_case (done (ready message) ch') = next (record d { channel = ok ch' })
      by_case (done not_ready ch') = ground arith
      by_case (fail e ch') = tt
      by_case (panic x) = tt
      by_case running = tt

  receive_loop-GoesOn :
      (fuel rounds now : ℕ) (d : ChannelDriver env) → GoesOn (receive_loop env fuel rounds now d)
  unfolding receive_loop
  receive_loop-GoesOn zero rounds now d = tt
  receive_loop-GoesOn (suc fuel) rounds now d =
      poll_channel-GoesOn rounds now (receive_loop env fuel rounds now) d.channel d
        (receive_loop-GoesOn fuel rounds now)

  drain-commands :
      (now : ℕ) (l : List (Command env)) (d s : ChannelDriver env) (x : Unit {0})
      → drain env now l d ≡ done x s
      → s.commands ≡ []
  unfolding drain
  drain-commands now [] d s x h = ground arith
  drain-commands now (command ∷ rest) d s x h =
      let (y, s', e, h') =
        and_then-done (handle_command env now command (record d { commands = rest }))
          (λ _. drain env now rest) x s h in
      drain-commands now rest s' s x h'

  -- The driver ends only in a state where all clients have dropped, no command waits, and the channel
  -- has no outstanding transaction or is given up.
  pub poll-ready :
      (fuel rounds now : ℕ) (d s : ChannelDriver env)
      → poll env fuel rounds now d ≡ done (ready tt) s
      → (s.closed ≡ true) × (s.commands ≡ []) × (outstanding env s ≡ 0)
  unfolding poll
  poll-ready fuel rounds now d s h =
      let (y, s', e, h') = and_then-done (drain env now d.commands d) _ (ready tt) s h in
      let c = drain-commands now d.commands d s' y e in
      let g = receive_loop-GoesOn fuel rounds now s' in
      elim (Bool-cases (s'.closed && nat_beq (outstanding env s') 0)) [
        | inl t ↦ ground (arith, h', c, t)
        | inr f ↦ ground (arith, h', g, f)
      ]

  -- The transport of the channel has ended and no timeout is due: both stay so.
  abbrev pub Ended : ℕ → Channel env → Type 0
  Ended now ch =
      (env.transport.poll_recv now ch.transporter ≡ done (ready none) ch.transporter)
      × (env.timeouts.filter_pop now (λ k. contains_key ⦃e = key_partial_eq env⦄ k ch.transactions)
            ch.timeout_queue
          ≡ (none, ch.timeout_queue))

  poll_recv-Ended :
      (rounds now : ℕ) (ch : Channel env)
      → Ended now ch
      → Poll.poll_recv env (suc rounds) now ch ≡ done (ready none) ch
  unfolding Poll.poll_recv handle_timeout timeout_round recv_loop recv_round
  poll_recv-Ended rounds now ch (t, q) = ground (arith, q, t)

  receive_loop-Ended :
      (fuel rounds now : ℕ) (ch : Channel env) (d : ChannelDriver env)
      → Ended now ch
      → receive_loop env fuel (suc rounds) now (record d { channel = ok ch }) ≡ running
  unfolding receive_loop poll_channel
  receive_loop-Ended zero rounds now ch d e = refl
  receive_loop-Ended (suc fuel) rounds now ch d e =
      rw (poll_channel, poll_recv-Ended rounds now ch e) (receive_loop-Ended fuel rounds now ch d e)

  -- Once the transport has ended, so that its polls go on to return the end, a poll of a driver with no
  -- timeout due and no command that waits, whose clients have not dropped, never returns: the loop
  -- takes up every number of rounds that it is given.
  pub poll-Ended :
      (fuel rounds now : ℕ) (ch : Channel env) (d : ChannelDriver env)
      → Ended now ch
      → poll env fuel (suc rounds) now (record d { channel = ok ch; commands = []; closed = false })
        ≡ running
  unfolding poll drain
  poll-Ended fuel rounds now ch d e =
      receive_loop-Ended fuel rounds now ch (record d { commands = []; closed = false }) e

  abbrev pub Exits : Type 0
  Exits = List (ℕ × Result (Response env.codec) (Option ErrorKind))

  -- The results `acc`, and then the error `e` for every call of the commands.
  abbrev pub refused : ErrorKind → List (Command env) → Exits → Exits
  refused e [] acc = acc
  refused e (cast peer m ∷ l) acc = refused e l acc
  refused e (call peer m reply ∷ l) acc = refused e l ((reply, err (some e)) ∷ acc)

  drain-refused :
      (now : ℕ) (e : ErrorKind) (l : List (Command env)) (d : ChannelDriver env)
      → drain env now l (record d { channel = err e })
        ≡ done tt (record d { channel = err e; commands = []; exits = refused e l d.exits })
  unfolding drain handle_command command_on
  drain-refused now e [] d = refl
  drain-refused now e (cast peer m ∷ l) d = drain-refused now e l (record d { commands = l })
  drain-refused now e (call peer m reply ∷ l) d =
      drain-refused now e l (record d { commands = l; exits = (reply, err (some e)) ∷ d.exits })

  -- After the channel was given up with an error, a poll returns, whatever waits: every call is
  -- answered with that error, every indication is dropped, and the driver ends if and only if all
  -- clients have dropped.
  pub poll-refused :
      (fuel rounds now : ℕ) (e : ErrorKind) (d : ChannelDriver env)
      → poll env (suc fuel) rounds now (record d { channel = err e })
        ≡ done
            (if d.closed then ready tt else not_ready)
            (record d { channel = err e; commands = []; exits = refused e d.commands d.exits })
  unfolding poll outstanding receive_loop poll_channel
  poll-refused fuel rounds now e d = rw (drain-refused now e d.commands d) (ground arith)
