-- ===== src/Server.antt =====
-- src/server.rs: `Action`, `HandleMessage` and the state of `HandlerDriver`. A boxed future is an
-- opaque value: it is given to the spawner, and what it sends later arrives in `response_rx`.
pub mod Driver
pub mod Binding
pub mod Servers
pub mod Answers
pub mod Errors
pub mod Only
pub mod Idle
pub mod Listens
pub mod Serves
use Prim.Native.String.{◌++◌}
use rustun.Prelude.{String, ℕ, List, []}
use rustun.Codec.{StunCodec}
use rustun.Error.{ErrorKind}
use rustun.Message.{InvalidMessage}
use rustun.Message.Request.{Request}
use rustun.Message.Indication.{Indication}
use rustun.Message.ErrorResponse.{Response}
use rustun.Channel.{ChannelEnv, Channel}

-- `DEFAULT_PORT` and `DEFAULT_TLS_PORT`.
abbrev pub default_port : ℕ
default_port = 3478

abbrev pub default_tls_port : ℕ
default_tls_port = 5349

-- `Action<T>`, with futures of the type `F`.
pub data Action (F T : Type 0) : Type 0 where
  reply : T → Action F T
  future_reply : F → Action F T
  no_reply : Action F T
  future_no_reply : F → Action F T

-- `fmt::Debug` of an action, by that of what it replies.
unfoldable pub debug : {F T : Type 0} → (T → String) → Action F T → String
debug fmt (reply t) = "Reply(" ++ fmt t ++ ")"
debug fmt (future_reply _) = "FutureReply(_)"
debug fmt no_reply = "NoReply"
debug fmt (future_no_reply _) = "FutureNoReply(_)"

-- `HandleMessage`, with the handler's state.
pub record HandleMessage (c : StunCodec) (PeerAddr Future : Type 0) : Type 1 where
  pub State : Type 0
  pub handle_call : PeerAddr → Request c → State → Action Future (Response c) × State
  pub handle_cast : PeerAddr → Indication c → State → Action Future ⊥ × State
  pub handle_invalid_message :
      PeerAddr → InvalidMessage → State → Action Future (Response c) × State
  pub handle_channel_error : ErrorKind → State → State

-- What a driver is made of. The peer address is `SocketAddr`.
pub record ServerEnv : Type 1 where
  pub channel : ChannelEnv
  pub Future : Type 0
  pub handler : HandleMessage channel.codec channel.PeerAddr Future

-- A future that was given to the spawner: what it yields is sent to `response_tx` with the peer, or is
-- nothing.
pub data Task (P F : Type 0) : Type 0 where
  replies : F → P → Task P F
  effects : F → Task P F

pub record HandlerDriver (env : ServerEnv) : Type 0 where
  pub spawned : List (Task env.channel.PeerAddr env.Future)
  pub handler : env.handler.State
  pub channel : Channel env.channel
  pub response_rx : List (env.channel.PeerAddr × Response env.channel.codec)

-- `HandlerDriver::new`.
unfoldable pub new : {env : ServerEnv} → env.handler.State → Channel env.channel → HandlerDriver env
new handler channel = record {
  spawned = [];
  handler = handler;
  channel = channel;
  response_rx = [];
}

-- The default methods of the trait.
abbrev pub default_handler :
    (c : StunCodec) (PeerAddr Future State : Type 0) → HandleMessage c PeerAddr Future
default_handler c PeerAddr Future State = record {
  State = State;
  handle_call = λ peer request s. (no_reply, s);
  handle_cast = λ peer indication s. (no_reply, s);
  handle_invalid_message = λ peer message s. (no_reply, s);
  handle_channel_error = λ error s. s;
}
