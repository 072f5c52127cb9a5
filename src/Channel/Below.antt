-- ===== src/Channel/Below.antt =====
-- What holds of the transport below a channel, whatever the channel does: src/channel.rs, its calls of
-- `self.transporter`.
use rustun.Prelude.{ℕ, some, ◌≡◌, arith, Keeps}
use rustun.Error.{message_error_from_transport, error_from_transport}
use rustun.Message.Request
use rustun.Message.Request.{Request}
use rustun.Message.Indication
use rustun.Message.Indication.{Indication}
use rustun.Channel.{ChannelEnv, Channel, key_partial_eq, call, cast, reply, response_message}
use rustun.Channel.Poll.{poll_send, poll_recv}
use rustun.Channel.Steps.{Preserved}
use rustun.Channel.Steps.Polls.{on_transport-KeepsOn, poll_recv-Preserved}
use rustun.Channel.Reach.{
  Use, call_use, cast_use, reply_use, poll_send_use, poll_recv_use, use_channel, returned-Keeps,
}

-- Every call of the transport keeps `P`.
pub record TransportKeeps (env : ChannelEnv) (P : env.transport.State → Type 0) : Type 0 where
  pub sends :
      (now : ℕ) (peer : env.PeerAddr) (m : env.codec.Message) (t : env.transport.State)
      → P t
      → Keeps P (env.transport.start_send now peer m t)
  pub polls_send :
      (now : ℕ) (t : env.transport.State) → P t → Keeps P (env.transport.poll_send now t)
  pub polls_recv :
      (now : ℕ) (t : env.transport.State) → P t → Keeps P (env.transport.poll_recv now t)
  pub finishes :
      (now : ℕ) (peer : env.PeerAddr) (id : ℕ) (t : env.transport.State)
      → P t
      → Keeps P (env.transport.finish_transaction now peer id t)

module _ (env : ChannelEnv) (P : env.transport.State → Type 0) (kept : TransportKeeps env P) where
  open env use {codec, PeerAddr}
  open kept use {sends, polls_send, polls_recv, finishes}

  abbrev pub Below : Channel env → Type 0
  Below ch = P ch.transporter

  pub Below-Preserved : Preserved env Below
  Below-Preserved = record {
    receives = λ now ch h. polls_recv now ch.transporter h;
    pops_none = λ now ch q e h. h;
    pops_unknown = λ now ch k q e absent h. finishes now k.0 k.1 ch.transporter h;
    times_out = λ now ch k q method tx e found h. finishes now k.0 k.1 ch.transporter h;
    ends = λ now ch k method tx x found y h. finishes now k.0 k.1 ch.transporter h;
  }

  call-Below :
      (now : ℕ) (peer : PeerAddr) (request : Request codec) (ch : Channel env)
      → Below ch
      → Keeps Below (call env now peer request ch)
  unfolding call Request.into_message
  call-Below now peer request ch h =
      ground (arith, h, sends now peer request.message ch.transporter h)

  -- Whatever an owner of the channel does, `P` goes on to hold of the transport.
  pub use_channel-Below :
      (u : Use env) (ch s : Channel env)
      → P ch.transporter
      → use_channel env u ch ≡ some s
      → P s.transporter
  unfolding use_channel cast reply poll_send
  use_channel-Below (call_use now peer request) ch s h e =
      returned-Keeps Below (call env now peer request ch) s (call-Below now peer request ch h) e
  use_channel-Below (cast_use now peer indication) ch s h e =
      returned-Keeps Below (cast env now peer indication ch) s
        (on_transport-KeepsOn env Below message_error_from_transport
          (env.transport.start_send now peer (Indication.into_message codec indication)) ch
          (sends now peer _ ch.transporter h))
        e
  use_channel-Below (reply_use now peer response) ch s h e =
      returned-Keeps Below (reply env now peer response ch) s
        (on_transport-KeepsOn env Below message_error_from_transport
          (env.transport.start_send now peer (response_message env response)) ch
          (sends now peer _ ch.transporter h))
        e
  use_channel-Below (poll_send_use now) ch s h e =
      returned-Keeps Below (poll_send env now ch) s
        (on_transport-KeepsOn env Below error_from_transport (env.transport.poll_send now) ch
          (polls_send now ch.transporter h))
        e
  use_channel-Below (poll_recv_use rounds now) ch s h e =
      returned-Keeps Below (poll_recv env rounds now ch) s
        (poll_recv-Preserved env Below Below-Preserved rounds now ch h) e
