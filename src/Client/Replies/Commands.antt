-- ===== src/Client/Replies/Commands.antt =====
-- The commands of a client, and a whole poll of its driver: src/client.rs.
use rustun.Prelude.{
  Panic, ℕ, suc, ◌≡◌, refl, List, [], ◌∷◌, Result, ok, err, Outcome, done, fail, panic, running,
  Keeps, Keeps-and_then, arith,
}
use rustun.Error.{ErrorKind, MessageErrorKind, message_error_from_transport}
use rustun.Message.Request.{Request}
use rustun.Message.Indication.{Indication, into_message}
use rustun.Channel
use rustun.Channel.{ChannelEnv, Channel, Exit, key_partial_eq, on_transport}
use rustun.Channel.Steps.Polls.{on_transport-Keeps}
use rustun.Channel.Replies.{Answered, call-Answered}
use rustun.Client.{Command, call, cast, ChannelDriver}
use rustun.Client.Driver.{command_on, handle_command, drain, poll}
use rustun.Client.Replies.{Draws, Draws-Closed, Replied, set_channel-Replied, receive_loop-Replied}

module _ (env : ChannelEnv) (tx : ℕ) where
  open env use {codec, PeerAddr}

  cast-Replied :
      (now : ℕ) (peer : PeerAddr) (m : Indication codec) (ch : Channel env) (d : ChannelDriver env)
      → Replied env tx (record d { channel = ok ch })
      → Keeps (Replied env tx) (command_on env now (cast peer m) (ok ch) d)
  unfolding command_on Channel.cast
  cast-Replied now peer m ch d (a, f, r) =
      by_case
        (on_transport env message_error_from_transport
          (env.transport.start_send now peer (into_message codec m)) ch)
        (on_transport-Keeps env (Draws env tx ch.next_handle) (Draws-Closed env tx ch.next_handle)
          message_error_from_transport (env.transport.start_send now peer (into_message codec m)) ch
          (a, refl))
    where
      by_case :
          (o : Outcome MessageErrorKind (Channel env) (Unit {0}))
          → Keeps (Draws env tx ch.next_handle) o
          → Keeps {E = ⊥} {A = Unit {0}} (Replied env tx) (elim o [
            | done _ ch' ↦ done tt (record d { channel = ok ch' })
            | fail _ ch' ↦ done tt (record d { channel = ok ch' })
            | panic x ↦ panic x
            | running ↦ running
          ])
      by_case (done x ch') k = set_channel-Replied env tx _ ch' d f r k
      by_case (fail e ch') k = set_channel-Replied env tx _ ch' d f r k
      by_case (panic x) k = tt
      by_case running k = tt

  -- The call draws the handle `n`, and has no error of its own.
  abbrev Called : ℕ → Outcome ErrorKind (Channel env) ℕ → Type 0
  Called n (done h s) = (h ≡ n) × (s.next_handle ≡ suc n)
  Called n (fail e s) = ⊥
  Called n (panic x) = Unit {0}
  Called n running = Unit {0}

  call-Called :
      (now : ℕ) (peer : PeerAddr) (m : Request codec) (ch : Channel env)
      → Called ch.next_handle (Channel.call env now peer m ch)
  unfolding Channel.call
  call-Called now peer m ch = ground arith

  call-Replied :
      (now : ℕ) (peer : PeerAddr) (m : Request codec) (reply : ℕ) (ch : Channel env)
      (d : ChannelDriver env)
      → Replied env tx (record d { channel = ok ch })
      → Keeps (Replied env tx) (command_on env now (call peer m reply) (ok ch) d)
  unfolding command_on
  call-Replied now peer m reply ch d (a, f, r) =
      by_case (Channel.call env now peer m ch) (call-Answered env tx now peer m ch a)
        (call-Called now peer m ch)
    where
      by_case :
          (o : Outcome ErrorKind (Channel env) ℕ)
          → Keeps (Answered env tx) o
          → Called ch.next_handle o
          → Keeps {E = ⊥} {A = Unit {0}} (Replied env tx) (elim o [
            | done h ch' ↦
                done tt (record d { channel = ok ch'; forwards = (h, reply) ∷ d.forwards })
            | fail e ch' ↦ panic Panic.unexpected
            | panic x ↦ panic x
            | running ↦ running
          ])
      by_case (done h ch') k (i, j) = (k, ground (arith, f, i, j), r)
      by_case (fail e ch') k c = tt
      by_case (panic x) k c = tt
      by_case running k c = tt

  command_on-Replied :
      (now : ℕ) (command : Command env) (c : Result (Channel env) ErrorKind) (d : ChannelDriver env)
      → Replied env tx (record d { channel = c })
      → Keeps (Replied env tx) (command_on env now command c (record d { channel = c }))
  unfolding command_on
  command_on-Replied now (cast peer m) (err e) d h = h
  command_on-Replied now (call peer m reply) (err e) d h = h
  command_on-Replied now (cast peer m) (ok ch) d h =
      cast-Replied now peer m ch (record d { channel = ok ch }) h
  command_on-Replied now (call peer m reply) (ok ch) d h =
      call-Replied now peer m reply ch (record d { channel = ok ch }) h

  drain-Replied :
      (now : ℕ) (l : List (Command env)) (d : ChannelDriver env)
      → Replied env tx d
      → Keeps (Replied env tx) (drain env now l d)
  unfolding drain handle_command
  drain-Replied now [] d h = h
  drain-Replied now (command ∷ rest) d h =
      Keeps-and_then (handle_command env now command (record d { commands = rest }))
        (λ _. drain env now rest)
        (command_on-Replied now command d.channel (record d { commands = rest }) h)
        (λ _ s. drain-Replied now rest s)

  pub poll-Replied :
      (fuel rounds now : ℕ) (d : ChannelDriver env)
      → Replied env tx d
      → Keeps (Replied env tx) (poll env fuel rounds now d)
  unfolding poll
  poll-Replied fuel rounds now d h =
      Keeps-and_then (drain env now d.commands d) _ (drain-Replied now d.commands d h)
        (λ _ s k. ground (arith, receive_loop-Replied env tx fuel rounds now s k))
