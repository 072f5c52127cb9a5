-- ===== src/Channel.antt =====
-- src/channel.rs: `ChannelBuilder`, `Channel` and its sending half. A `oneshot::Monitored` of a call
-- is a handle, a number that the channel draws; what has come through it is in the list `exits`.
pub mod Receive
pub mod Poll
pub mod Steps
pub mod Matches
pub mod Timed
pub mod Replies
pub mod Timeouts
pub mod Reach
pub mod Spec
pub mod Expiry
pub mod Drains
pub mod Below
pub mod Panics
use rustun.Prelude.{
  String, nat_partial_eq, ℕ, suc, ◌*◌, Option, some, List, [], ◌∷◌, Result, ok, err, Op, done, fail,
  panic, running, PartialEq, pair_partial_eq, if◌then◌else◌, length,
}
use rustun.Prelude.HashMap.{HashMap, insert, contains_key}
use rustun.Codec.{StunCodec}
use rustun.Error.{
  ForeignErrorKind, MessageErrorKind, ErrorKind, message_error_from_transport,
  message_error_from_monitor,
}
use rustun.Message.Request
use rustun.Message.Request.{Request}
use rustun.Message.Indication
use rustun.Message.Indication.{Indication}
use rustun.Message.SuccessResponse
use rustun.Message.ErrorResponse
use rustun.Message.ErrorResponse.{Response}
use rustun.Transport.{StunTransport, TimeoutQueue}

-- What a channel is made of: the transport `T: StunTransport<A>` and crates.
pub record ChannelEnv : Type 1 where
  pub codec : StunCodec
  pub PeerAddr : Type 0
  pub peer_partial_eq : PartialEq PeerAddr
  pub transport : StunTransport codec PeerAddr
  pub timeouts : TimeoutQueue (PeerAddr × ℕ)

-- What the receiving end of a oneshot channel gets: a value, the error of `exit(Err(..))`, or no
-- error at all if the sending end was dropped.
abbrev pub Exit : StunCodec → Type 0
Exit c = Result (Response c) (Option MessageErrorKind)

pub record Channel (env : ChannelEnv) : Type 0 where
  pub transporter : env.transport.State
  pub timeout_queue : env.timeouts.Queue
  pub request_timeout : ℕ
  pub transactions : HashMap (env.PeerAddr × ℕ) (ℕ × ℕ)
  pub next_handle : ℕ
  pub exits : List (ℕ × Exit env.codec)

pub record ChannelBuilder : Type 0 where
  pub request_timeout : ℕ

abbrev pub default_request_timeout_ms : ℕ
default_request_timeout_ms = 39_500

unfoldable pub default : ChannelBuilder
default = record { request_timeout = default_request_timeout_ms * 1_000_000 }

-- `ChannelBuilder::new`.
unfoldable pub builder_new : ChannelBuilder
unfolding default
builder_new = default

unfoldable pub with_request_timeout : ℕ → ChannelBuilder → ChannelBuilder
with_request_timeout duration b = record b { request_timeout = duration }

-- The receiver's `rx.map_err(MessageError::from)`.
unfoldable pub received : {c : StunCodec} → Exit c → Result (Response c) MessageErrorKind
received (ok r) = ok r
received (err e) = err (message_error_from_monitor e)

module _ (env : ChannelEnv) where
  open env use {codec, PeerAddr}

  abbrev pub Key : Type 0
  Key = PeerAddr × ℕ

  instance abbrev pub key_partial_eq : PartialEq Key
  key_partial_eq = pair_partial_eq ⦃d = env.peer_partial_eq⦄

  abbrev pub ChannelOp : Type 0 → Type 0 → Type 0
  ChannelOp E A = Op E (Channel env) A

  -- `ChannelBuilder::finish`.
  unfoldable pub finish : ChannelBuilder → env.transport.State → Channel env
  finish b transporter = record {
    transporter = transporter;
    timeout_queue = env.timeouts.new;
    request_timeout = b.request_timeout;
    transactions = [];
    next_handle = 0;
    exits = [];
  }

  -- `Channel::new`.
  unfoldable pub new : env.transport.State → Channel env
  unfolding finish default
  new transporter = finish default transporter

  -- `tx.exit(..)`.
  abbrev pub exit : ℕ → Exit codec → Channel env → Channel env
  exit tx r ch = record ch { exits = (tx, r) ∷ ch.exits }

  -- A call of the transport, with its error converted by `convert`.
  abbrev pub on_transport :
      {E A : Type 0}
      → (ForeignErrorKind → E)
      → Op ForeignErrorKind env.transport.State A
      → ChannelOp E A
  on_transport convert m ch = elim (m ch.transporter) [
    | done a t ↦ done a (record ch { transporter = t })
    | fail e t ↦ fail (convert e) (record ch { transporter = t })
    | panic x ↦ panic x
    | running ↦ running
  ]

  -- `call` returns the handle of its reply.
  unfoldable pub call : ℕ → PeerAddr → Request codec → ChannelOp ErrorKind ℕ
  unfolding Request.transaction_id Request.method Request.into_message
  call now peer request ch =
      let id = Request.transaction_id codec request in
      let method = Request.method codec request in
      let tx = ch.next_handle in
      if contains_key (peer, id) ch.transactions
      then done tx (record ch {
        next_handle = suc tx;
        exits = (tx, err (some MessageErrorKind.invalid_input)) ∷ ch.exits;
      })
      else (elim (env.transport.start_send now peer (Request.into_message codec request)
          ch.transporter) [
            | fail e t ↦ done tx (record ch {
              transporter = t;
              next_handle = suc tx;
              exits = (tx, err (some (message_error_from_transport e))) ∷ ch.exits;
            })
            | done _ t ↦ done tx (record ch {
              transporter = t;
              next_handle = suc tx;
              transactions = insert (peer, id) (method, tx) ch.transactions;
              timeout_queue = env.timeouts.push now (peer, id) ch.request_timeout ch.timeout_queue;
            })
            | panic x ↦ panic x
            | running ↦ running
          ])

  unfoldable pub cast : ℕ → PeerAddr → Indication codec → ChannelOp MessageErrorKind (Unit {0})
  unfolding Indication.into_message
  cast now peer indication =
      on_transport message_error_from_transport
        (env.transport.start_send now peer (Indication.into_message codec indication))

  abbrev pub response_message : Response codec → codec.Message
  response_message (ok m) = SuccessResponse.into_message codec m
  response_message (err m) = ErrorResponse.into_message codec m

  unfoldable pub reply : ℕ → PeerAddr → Response codec → ChannelOp MessageErrorKind (Unit {0})
  reply now peer response =
      on_transport message_error_from_transport
        (env.transport.start_send now peer (response_message response))

  unfoldable pub transporter_ref : Channel env → env.transport.State
  transporter_ref ch = ch.transporter

  -- `m` is what is done to the transporter by the reference that `transporter_mut` returns.
  unfoldable pub transporter_mut : {E A : Type 0} → Op E env.transport.State A → ChannelOp E A
  transporter_mut m ch = elim (m ch.transporter) [
    | done a t ↦ done a (record ch { transporter = t })
    | fail e t ↦ fail e (record ch { transporter = t })
    | panic x ↦ panic x
    | running ↦ running
  ]

  -- `fmt::Debug` of a channel.
  unfoldable pub debug : Channel env → String
  debug ch = "Channel { .. }"

  unfoldable pub outstanding_transactions : Channel env → ℕ
  outstanding_transactions ch = length ch.transactions
