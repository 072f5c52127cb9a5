-- ===== src/Stack/Reach.antt =====
-- The states of a channel over UDP: src/channel.rs and src/transport/udp.rs together.
use rustun.Prelude.{
  ◌||◌, ℕ, ◌≡◌, Bool, true, Option, none, some, ok, err, done, arith, subst, nat_partial_eq,
}
use rustun.Prelude.HashMap.{get}
use rustun.Prelude.HashSet.{contains}
use rustun.Codec.{MessageClass}
use rustun.Error.{message_error_from_transport}
use rustun.Message.Indication
use rustun.Message.SuccessResponse
use rustun.Message.ErrorResponse
use rustun.Transport.Peer.{PeerState}
use rustun.Transport.Udp.{RetransmitTransporter}
use rustun.Transport.Udp.Held.{GoodIn}
use rustun.Transport.Udp.Builder
use rustun.Transport.Udp.Builder.{StunUdpTransporterBuilder}
use rustun.Transport.Udp.Send.{finish_transaction}
use rustun.Transport.Udp.Pending.{NoneIn, ids_of, DropsAll, NonePendingIn, finish_transaction-drops}
use rustun.Channel
use rustun.Channel.{ChannelBuilder, Channel, key_partial_eq, call, cast, reply, response_message}
use rustun.Channel.Poll
use rustun.Channel.Reach.{
  Use, call_use, cast_use, reply_use, poll_send_use, poll_recv_use, use_channel, returned-Keeps,
}
use rustun.Stack.{UdpStack, udp_channel}
use rustun.Stack.Held.{
  waits, Within, call-Within, start_send-Within, poll_send-Within, poll_recv-Within,
}

module _ (u : UdpStack) where
  open u use {udp}

  -- An indication or a response is of its class, as its constructors make it.
  abbrev pub Classed : Use (udp_channel u) → Type 0
  Classed (call_use now peer request) = Unit {0}
  Classed (cast_use now peer indication) =
      udp.codec.class indication.message ≡ MessageClass.indication
  Classed (reply_use now peer (ok m)) = udp.codec.class m.message ≡ MessageClass.success_response
  Classed (reply_use now peer (err m)) = udp.codec.class m.message ≡ MessageClass.error_response
  Classed (poll_send_use now) = Unit {0}
  Classed (poll_recv_use rounds now) = Unit {0}

  -- A channel on a new transporter, and what its owner did with it by `call`, `cast`, `reply`, `poll_send`
  -- and `poll_recv`. What an owner can do to the transporter by `transporter_mut` is not among it.
  pub data Reach : Channel (udp_channel u) → Type 0 where
    built :
        (b : ChannelBuilder) (ub : StunUdpTransporterBuilder) (inner : udp.inner.State)
        → Reach (Channel.finish (udp_channel u) b (Builder.finish udp ub inner))
    used :
        {ch s : Channel (udp_channel u)} (x : Use (udp_channel u))
        → Classed x
        → Reach ch
        → use_channel (udp_channel u) x ch ≡ some s
        → Reach s

  use_channel-Within :
      (x : Use (udp_channel u)) (ch s : Channel (udp_channel u))
      → Classed x
      → Within u ch
      → use_channel (udp_channel u) x ch ≡ some s
      → Within u s
  unfolding use_channel cast reply Indication.into_message SuccessResponse.into_message
      ErrorResponse.into_message
  use_channel-Within (call_use now peer request) ch s c h e =
      returned-Keeps (Within u) (call (udp_channel u) now peer request ch) s
        (call-Within u now peer request ch h) e
  use_channel-Within (cast_use now peer indication) ch s c h e =
      returned-Keeps (Within u) _ s
        (start_send-Within u message_error_from_transport now peer indication.message ch
          (ground (arith, c)) h)
        e
  use_channel-Within (reply_use now peer (ok m)) ch s c h e =
      returned-Keeps (Within u) _ s
        (start_send-Within u message_error_from_transport now peer m.message ch (ground (arith, c))
          h)
        e
  use_channel-Within (reply_use now peer (err m)) ch s c h e =
      returned-Keeps (Within u) _ s
        (start_send-Within u message_error_from_transport now peer m.message ch (ground (arith, c))
          h)
        e
  use_channel-Within (poll_send_use now) ch s c h e =
      returned-Keeps (Within u) (Poll.poll_send (udp_channel u) now ch) s
        (poll_send-Within u now ch h) e
  use_channel-Within (poll_recv_use rounds now) ch s c h e =
      returned-Keeps (Within u) (Poll.poll_recv (udp_channel u) rounds now ch) s
        (poll_recv-Within u rounds now ch h) e

  pub Reach-Within : {ch : Channel (udp_channel u)} → Reach ch → Within u ch
  unfolding Channel.finish Builder.finish
  Reach-Within (built b ub inner) = λ q i. tt
  Reach-Within {ch = s} (used {ch = ch} x c r e) = use_channel-Within x ch s c (Reach-Within r) e

  -- In every state that a channel over UDP can reach by `call`, `cast`, `reply`, `poll_send` and
  -- `poll_recv`, if the indications and responses that it was given are of their class and its owner
  -- does nothing to the transporter by `transporter_mut`: what the transporter has outstanding with a peer, or has kept back for
  -- it, is an outstanding transaction of the channel; and no request is kept back for the peer while
  -- its transaction is outstanding in the transporter.
  pub Reach-held :
      {ch : Channel (udp_channel u)} {p : PeerState udp.codec} (peer id : ℕ)
      → Reach ch
      → get peer ch.transporter.peers ≡ some p
      → (contains id p.transactions || contains id (ids_of udp.codec p.pending_requests)) ≡ true
      → (waits u ch peer id ≡ true) × NoneIn udp.codec p.transactions p.pending_requests
  Reach-held {ch} {p} peer id r e held =
      let (n, outstanding, kept_back) =
        subst (GoodIn udp.codec id (waits u ch peer id)) e (Reach-Within r peer id) in
      (ground (arith, held, outstanding, kept_back), n)

  GoodIn-NonePendingIn :
      (b : Bool) (o : Option (PeerState udp.codec)) → GoodIn udp.codec 0 b o → NonePendingIn udp o
  GoodIn-NonePendingIn b none h = tt
  GoodIn-NonePendingIn b (some p) h = h.0

  -- In every state that a channel over UDP can reach by `call`, `cast`, `reply`, `poll_send` and
  -- `poll_recv`, if the indications and responses that it was given are of their class and its owner
  -- does nothing to the transporter by `transporter_mut`: to finish a transaction with a peer in the transporter drops every
  -- request that was kept back for that peer, and sends and schedules none.
  pub Reach-drops :
      {ch : Channel (udp_channel u)} (now peer id : ℕ)
      → Reach ch
      → (s : RetransmitTransporter udp) × (finish_transaction udp now peer id ch.transporter
          ≡ done tt s)
        × DropsAll udp peer ch.transporter s
  Reach-drops {ch} now peer id r = finish_transaction-drops udp now peer id ch.transporter (
      GoodIn-NonePendingIn (waits u ch peer 0) (get peer ch.transporter.peers)
        (Reach-Within r peer 0))
