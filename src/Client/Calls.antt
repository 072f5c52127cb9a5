-- ===== src/Client/Calls.antt =====
-- The calls that a driver of a client is given are kept: src/client.rs.
use rustun.Prelude.{
  ℕ, zero, suc, ◌+◌, ◌≡◌, refl, List, [], ◌∷◌, Result, ok, err, Outcome, done, fail, panic, running,
  Keeps, Keeps-and_then, Async, ready, not_ready, and_then, nat_beq, to_nat, arith, if◌then◌else◌,
  ◌&&◌,
}
use rustun.Error.{ErrorKind}
use rustun.Channel.{ChannelEnv, Channel}
use rustun.Channel.Poll
use rustun.Channel.Replies.{count_exits}
use rustun.Client.{Command, call, cast, ChannelDriver, give_up}
use rustun.Client.Driver.{
  DriverOp, command_on, handle_command, drain, outstanding, poll_sends, poll_channel, receive_loop,
  poll,
}

module _ (env : ChannelEnv) where
  -- How often the handle `h` is the reply of a command that waits.
  abbrev pub count_commands : ℕ → List (Command env) → ℕ
  count_commands h [] = 0
  count_commands h (cast peer m ∷ l) = count_commands h l
  count_commands h (call peer m reply ∷ l) = to_nat (nat_beq reply h) + count_commands h l

  -- How often a future that was spawned will pass on a result to the handle `h`.
  abbrev pub count_forwards : ℕ → List (ℕ × ℕ) → ℕ
  count_forwards h [] = 0
  count_forwards h ((tx, reply) ∷ l) = to_nat (nat_beq reply h) + count_forwards h l

  -- How often the handle `h` of a call is with the driver.
  abbrev pub count_calls : ℕ → ChannelDriver env → ℕ
  count_calls h d =
      count_commands h d.commands + count_forwards h d.forwards + count_exits h d.exits

  -- `k` waiting commands, and the calls that are already handled, are `n` in all.
  abbrev HoldsWith : ℕ → ℕ → ℕ → ChannelDriver env → Type 0
  HoldsWith h k n d = k + count_forwards h d.forwards + count_exits h d.exits ≡ n

  handle_command-HoldsWith :
      (h k n now : ℕ) (command : Command env) (d : ChannelDriver env)
      → HoldsWith h (count_commands h (command ∷ []) + k) n d
      → Keeps (HoldsWith h k n) (handle_command env now command d)
  unfolding handle_command command_on
  handle_command-HoldsWith h k n now (cast peer m) d e = ground arith
  handle_command-HoldsWith h k n now (call peer m reply) d e = ground arith

  -- The calls of the driver have no error, so that what holds after the first may differ from what
  -- holds after both.
  Keeps-then :
      {A B : Type 0} {P : ChannelDriver env → Type 0} (Q : ChannelDriver env → Type 0)
      (r : Outcome ⊥ (ChannelDriver env) A) (f : A → DriverOp env B)
      → Keeps P r
      → ((a : A) (s : ChannelDriver env) → P s → Keeps Q (f a s))
      → Keeps Q (and_then r f)
  Keeps-then Q (done a s) f h next = next a s h
  Keeps-then Q (fail e s) f h next = absurd e
  Keeps-then Q (panic x) f h next = tt
  Keeps-then Q running f h next = tt

  drain-HoldsWith :
      (h n now : ℕ) (l : List (Command env)) (d : ChannelDriver env)
      → HoldsWith h (count_commands h l) n d
      → Keeps (λ s. count_calls h s ≡ n) (drain env now l d)
  unfolding drain
  drain-HoldsWith h n now [] d e = e
  drain-HoldsWith h n now (command ∷ rest) d e =
      Keeps-then _ (handle_command env now command (record d { commands = rest }))
        (λ _. drain env now rest)
        (handle_command-HoldsWith h (count_commands h rest) n now command _
          (cons-HoldsWith command e))
        (λ _ s b. drain-HoldsWith h n now rest s b)
    where
      cons-HoldsWith :
          (command : Command env)
          → HoldsWith h (count_commands h (command ∷ rest)) n d
          → HoldsWith h (count_commands h (command ∷ []) + count_commands h rest) n d
      cons-HoldsWith (cast peer m) e = omega arith
      cons-HoldsWith (call peer m reply) e = omega arith

  poll_channel-count_calls :
      (h n rounds now : ℕ) (rest : DriverOp env (Async (Unit {0})))
      (r : Result (Channel env) ErrorKind) (d : ChannelDriver env)
      → ((s : ChannelDriver env) → count_calls h s ≡ n → Keeps (λ s. count_calls h s ≡ n) (rest s))
      → count_calls h d ≡ n
      → Keeps (λ s. count_calls h s ≡ n) (poll_channel env rounds now rest r d)
  unfolding poll_channel poll_sends give_up
  poll_channel-count_calls h n rounds now rest (err x) d next e = e
  poll_channel-count_calls h n rounds now rest (ok ch) d next e =
      poll_recv-count_calls (Poll.poll_recv env rounds now ch)
    where
      poll_recv-count_calls :
          (r : Outcome ErrorKind (Channel env) (Poll.Received env))
          → Keeps
              (λ s. count_calls h s ≡ n)
              (elim r [
                | done (ready message) ch' ↦ rest (record d { channel = ok ch' })
                | done not_ready ch' ↦ poll_sends env now ch' d
                | fail e ch' ↦ done not_ready (give_up env ch' e d)
                | panic x ↦ panic x
                | running ↦ running
              ])
      poll_recv-count_calls (done (ready message) ch') = next (record d { channel = ok ch' }) e
      poll_recv-count_calls (done not_ready ch') = ground arith
      poll_recv-count_calls (fail x ch') = e
      poll_recv-count_calls (panic x) = tt
      poll_recv-count_calls running = tt

  receive_loop-count_calls :
      (h n fuel rounds now : ℕ) (d : ChannelDriver env)
      → count_calls h d ≡ n
      → Keeps (λ s. count_calls h s ≡ n) (receive_loop env fuel rounds now d)
  unfolding receive_loop
  receive_loop-count_calls h n zero rounds now d e = tt
  receive_loop-count_calls h n (suc fuel) rounds now d e =
      poll_channel-count_calls h n rounds now (receive_loop env fuel rounds now) d.channel d
        (receive_loop-count_calls h n fuel rounds now) e

  -- The handle of a call is never lost and never used twice: a poll of the driver leaves as they are
  -- the calls that wait, that a future will pass a result to, or that were answered at once, taken
  -- together, for each handle.
  pub poll-count_calls :
      (h fuel rounds now : ℕ) (d : ChannelDriver env)
      → Keeps (λ s. count_calls h s ≡ count_calls h d) (poll env fuel rounds now d)
  unfolding poll
  poll-count_calls h fuel rounds now d =
      Keeps-and_then (drain env now d.commands d) _
        (drain-HoldsWith h (count_calls h d) now d.commands d refl) (λ _ s b. end-count_calls s b)
    where
      end-count_calls :
          (s : ChannelDriver env)
          → count_calls h s ≡ count_calls h d
          → Keeps
              (λ s. count_calls h s ≡ count_calls h d)
              (if s.closed && nat_beq (outstanding env s) 0
                then done (ready tt) s
                else receive_loop env fuel rounds now s)
      end-count_calls s b =
          ground (arith, receive_loop-count_calls h (count_calls h d) fuel rounds now s b)
