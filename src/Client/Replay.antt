-- ===== src/Client/Replay.antt =====
-- The commands of clients, and the same calls by an owner of the channel: src/client.rs,
-- `handle_command` and the loop over the commands in `poll`.
use rustun.Prelude.{
  ℕ, ◌≡◌, refl, ap, ◌∙◌, Option, none, some, List, [], ◌∷◌, Result, ok, err, Outcome, Panic, done,
  fail, panic, running, arith, and_then,
}
use rustun.Error.{ErrorKind, MessageErrorKind}
use rustun.Message.Request.{Request}
use rustun.Channel
use rustun.Channel.{ChannelEnv, Channel}
use rustun.Channel.Reach.{Use, call_use, cast_use, use_channel, returned}
use rustun.Client.{Command, call, cast, ChannelDriver}
use rustun.Client.Driver.{drain, handle_command, command_on}

module _ (env : ChannelEnv) where
  open env use {codec, PeerAddr}

  abbrev pub use_of : ℕ → Command env → Use env
  use_of now (call peer request reply) = call_use now peer request
  use_of now (cast peer indication) = cast_use now peer indication

  -- The channel after an owner did, one after another, what the commands say.
  abbrev pub replay : ℕ → List (Command env) → Channel env → Option (Channel env)
  replay now [] ch = some ch
  replay now (c ∷ cs) ch = elim (use_channel env (use_of now c) ch) [
    | none ↦ none
    | some s ↦ replay now cs s
  ]

  abbrev pub channel_of : Result (Channel env) ErrorKind → Option (Channel env)
  channel_of (ok ch) = some ch
  channel_of (err e) = none

  -- The channel of the driver that a call of it returned.
  abbrev pub left : {A : Type 0} → Outcome ⊥ (ChannelDriver env) A → Option (Channel env)
  left (done a s) = channel_of s.channel
  left (fail e s) = none
  left (panic x) = none
  left running = none

  abbrev NeverFails : {E S A : Type 0} → Outcome E S A → Type 0
  NeverFails (done a s) = Unit {0}
  NeverFails (fail e s) = ⊥
  NeverFails (panic x) = Unit {0}
  NeverFails running = Unit {0}

  call-NeverFails :
      (now : ℕ) (peer : PeerAddr) (request : Request codec) (ch : Channel env)
      → NeverFails (Channel.call env now peer request ch)
  unfolding Channel.call
  call-NeverFails now peer request ch = ground arith

  -- One command, and the rest of them.
  command_on-replay :
      (now : ℕ) (c : Command env) (cs : List (Command env)) (ch : Channel env)
      (d : ChannelDriver env)
      → ((s : ChannelDriver env) (ch' : Channel env)
          → s.channel ≡ ok ch'
          → left (drain env now cs s) ≡ replay now cs ch')
      → left (and_then (command_on env now c (ok ch) d) (λ _. drain env now cs))
        ≡ replay now (c ∷ cs) ch
  unfolding command_on use_channel
  command_on-replay now (cast peer indication) cs ch d next =
      by_case (Channel.cast env now peer indication ch)
    where
      by_case :
          (r : Outcome MessageErrorKind (Channel env) (Unit {0}))
          → left (
              and_then {E = ⊥} {S = ChannelDriver env} {A = Unit {0}}
                (elim r [
                  | done _ ch' ↦ done tt (record d { channel = ok ch' })
                  | fail _ ch' ↦ done tt (record d { channel = ok ch' })
                  | panic x ↦ panic x
                  | running ↦ running
                ])
                (λ _. drain env now cs))
            ≡ elim (returned r) as (λ _. Option (Channel env)) [
              | none ↦ none
              | some s ↦ replay now cs s
            ]
      by_case (done x ch') = next (record d { channel = ok ch' }) ch' refl
      by_case (fail x ch') = next (record d { channel = ok ch' }) ch' refl
      by_case (panic x) = refl
      by_case running = refl
  command_on-replay now (call peer request reply) cs ch d next =
      by_case (Channel.call env now peer request ch) (call-NeverFails now peer request ch)
    where
      by_case :
          (r : Outcome ErrorKind (Channel env) ℕ)
          → NeverFails r
          → left (
              and_then {E = ⊥} {S = ChannelDriver env} {A = Unit {0}}
                (elim r [
                  | done tx ch' ↦
                      done tt (record d { channel = ok ch'; forwards = (tx, reply) ∷ d.forwards })
                  | fail e ch' ↦ panic Panic.unexpected
                  | panic x ↦ panic x
                  | running ↦ running
                ])
                (λ _. drain env now cs))
            ≡ elim (returned r) as (λ _. Option (Channel env)) [
              | none ↦ none
              | some s ↦ replay now cs s
            ]
      by_case (done tx ch') h =
          next (record d { channel = ok ch'; forwards = (tx, reply) ∷ d.forwards }) ch' refl
      by_case (fail x ch') h = elim h [ ]
      by_case (panic x) h = refl
      by_case running h = refl

  -- The commands that wait for the driver of a client, when it handles them, do to its channel what
  -- the same calls do, one after another, by an owner of that channel; where one of those calls does
  -- not return, the driver does not either.
  pub drain-replay :
      (now : ℕ) (cs : List (Command env)) (d : ChannelDriver env) (ch : Channel env)
      → d.channel ≡ ok ch
      → left (drain env now cs d) ≡ replay now cs ch
  unfolding drain handle_command
  drain-replay now [] d ch e = ap channel_of e
  drain-replay now (c ∷ cs) d ch e =
      ap
        (λ x.
          left (
            and_then (command_on env now c x (record d { commands = cs })) (λ _. drain env now cs)))
        e
      ∙ command_on-replay now c cs ch (record d { commands = cs })
          (λ s ch'. drain-replay now cs s ch')
