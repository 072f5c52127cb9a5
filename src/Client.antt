-- ===== src/Client.antt =====
-- src/client.rs: the commands of a `Client` and its `ChannelDriver`. The oneshot channel of a call of
-- the client is a handle that the caller draws. A future that the driver spawns waits for a handle of
-- the channel and passes its result on: it is a pair of the two handles in `forwards`.
pub mod Driver
pub mod Calls
pub mod Replies
pub mod Reach
pub mod Ends
pub mod Replay
use rustun.Prelude.{
  String, ℕ, Bool, false, Option, none, some, List, [], ◌∷◌, ◌++◌, map, Result, ok, err, or_else,
  find_map, nat_beq, nat_partial_eq, if◌then◌else◌,
}
use rustun.Prelude.HashMap.{get}
use rustun.Error.{ErrorKind, error_from_send, error_from_message, error_from_monitor}
use rustun.Message.Request.{Request}
use rustun.Message.Indication.{Indication}
use rustun.Message.ErrorResponse.{Response}
use rustun.Channel
use rustun.Channel.{ChannelEnv, Channel, Exit, received}

-- `Command`.
pub data Command (env : ChannelEnv) : Type 0 where
  call : env.PeerAddr → Request env.codec → ℕ → Command env
  cast : env.PeerAddr → Indication env.codec → Command env

-- `fmt::Debug` of a command.
unfoldable pub debug : {env : ChannelEnv} → Command env → String
debug (call _ _ _) = "Call(..)"
debug (cast _ _) = "Cast(..)"

-- `ChannelDriver`. The commands that wait in `command_rx`, and whether all clients have dropped;
-- `results` is what a channel that was given up had got for its handles.
pub record ChannelDriver (env : ChannelEnv) : Type 0 where
  pub channel : Result (Channel env) ErrorKind
  pub commands : List (Command env)
  pub closed : Bool
  pub forwards : List (ℕ × ℕ)
  pub exits : List (ℕ × Result (Response env.codec) (Option ErrorKind))
  pub results : List (ℕ × Exit env.codec)

module _ (env : ChannelEnv) where
  open env use {codec, PeerAddr}

  -- `Client::new`: the driver that is given to the spawner.
  unfoldable pub new : Channel env → ChannelDriver env
  new channel = record {
    channel = ok channel;
    commands = [];
    closed = false;
    forwards = [];
    exits = [];
    results = [];
  }

  -- `command_tx.send(command)`, where the driver may have ended.
  unfoldable pub send :
      Command env
      → Option (ChannelDriver env)
      → Result (Unit {0}) ErrorKind × Option (ChannelDriver env)
  send command none = (err (error_from_send command), none)
  send command (some d) = (ok tt, some (record d { commands = d.commands ++ command ∷ [] }))

  -- `Client::call` and `Client::cast`: the command is sent, or the call fails at once.
  unfoldable pub client_call :
      PeerAddr
      → Request codec
      → ℕ
      → Option (ChannelDriver env)
      → Result (Unit {0}) ErrorKind × Option (ChannelDriver env)
  unfolding send
  client_call peer request reply = send (call peer request reply)

  unfoldable pub client_cast :
      PeerAddr
      → Indication codec
      → Option (ChannelDriver env)
      → Result (Unit {0}) ErrorKind × Option (ChannelDriver env)
  unfolding send
  client_cast peer indication = send (cast peer indication)

  -- What the spawned future passes on: `map_err(Error::from)`.
  unfoldable pub forwarded : Exit codec → Result (Response codec) ErrorKind
  unfolding received
  forwarded e = elim (received e) [ ok r ↦ ok r | err k ↦ err (error_from_message k) ]

  -- `reply.exit(result)`: what the caller's receiver is given.
  abbrev pub exited : Result (Response codec) ErrorKind → Result (Response codec) (Option ErrorKind)
  exited (ok r) = ok r
  exited (err e) = err (some e)

  -- The results that have come for the handles of the channel.
  abbrev pub channel_exits : ChannelDriver env → List (ℕ × Exit codec)
  channel_exits d = (elim d.channel [ ok ch ↦ ch.exits | err e ↦ [] ]) ++ d.results

  -- What a future of the driver gives the handle `reply`, if it is the one of that handle, and its
  -- own has a result.
  unfoldable pub passed :
      ℕ → List (ℕ × Exit codec) → ℕ × ℕ → Option (Result (Response codec) (Option ErrorKind))
  unfolding forwarded
  passed reply l (tx, handle) =
      if nat_beq handle reply
      then (elim (get tx l) [ none ↦ none | some e ↦ some (exited (forwarded e)) ])
      else none

  -- The waiting half of `Client::call`: `rx.map_err(Error::from)`, once there is a result.
  unfoldable pub heard : ℕ → ChannelDriver env → Option (Result (Response codec) ErrorKind)
  unfolding passed
  heard reply d =
      elim (or_else (get reply d.exits) (find_map (passed reply (channel_exits d)) d.forwards)) [
        | none ↦ none
        | some (ok r) ↦ some (ok r)
        | some (err e) ↦ some (err (error_from_monitor e))
      ]

  -- A channel that is given up drops the senders of its outstanding transactions.
  unfoldable pub dropped : Channel env → List (ℕ × Exit codec)
  dropped ch = map (λ t. (t.1.1, err none)) ch.transactions ++ ch.exits

  unfoldable pub give_up : Channel env → ErrorKind → ChannelDriver env → ChannelDriver env
  unfolding dropped
  give_up ch e d = record d { channel = err e; results = dropped ch ++ d.results }
