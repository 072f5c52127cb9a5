-- ===== src/Server/Answers.antt =====
-- What a server with `BindingHandler` answers: src/server.rs.
use rustun.Prelude.{
  Bool-cases, inl, inr, ◌⊎◌, ℕ, ◌≡◌, ◌≢◌, true, some, [], ◌∷◌, ok, err, done, ready, arith, nat_beq,
  nat_beq_iff, ◌>>=◌,
}
use rustun.Codec.{StunCodec, IsStunCodec, MessageClass}
use rustun.Message.{check_unknown_attributes, required_unknowns}
use rustun.Message.Request
use rustun.Message.Request.{Request}
use rustun.Message.SuccessResponse
use rustun.Message.SuccessResponse.{SuccessResponse}
use rustun.Message.ErrorResponse
use rustun.Message.ErrorResponse.{Response, ErrorResponse}
use rustun.Message.Roundtrip.{from_message-new_response}
use rustun.Channel
use rustun.Channel.{Channel, ChannelEnv}
use rustun.Channel.Receive.{request}
use rustun.Channel.Poll
use rustun.Server.{ServerEnv, HandlerDriver, Action, reply}
use rustun.Server.Binding.{Rfc5389, handle_call, binding_handler}
use rustun.Server.Driver.{or_tell, on_received, handle_message, handle_request, act_on_call, did}

module _ (c : StunCodec) (laws : IsStunCodec c) {PeerAddr : Type 0} (Future : Type 0)
    (rfc : Rfc5389 c PeerAddr) where
  -- The response is of the request's method and transaction id, with the one attribute `a`, and is
  -- accepted as a response by the other side.
  abbrev pub Responds : Request c → c.Attribute → Response c → Type 0
  Responds r a (ok m) =
      (c.class m.message ≡ MessageClass.success_response)
      × (c.method m.message ≡ c.method r.message)
      × (c.transaction_id m.message ≡ c.transaction_id r.message)
      × (c.attributes m.message ≡ a ∷ [])
      × (SuccessResponse.from_message c m.message ≡ ok m)
  Responds r a (err m) =
      (c.class m.message ≡ MessageClass.error_response)
      × (c.method m.message ≡ c.method r.message)
      × (c.transaction_id m.message ≡ c.transaction_id r.message)
      × (c.attributes m.message ≡ a ∷ [])
      × (ErrorResponse.from_message c m.message ≡ ok m)

  abbrev success : PeerAddr → Request c → SuccessResponse c
  success peer r = record {
    message =
        c.add_attribute
          (c.new MessageClass.success_response (c.method r.message) (c.transaction_id r.message))
          (rfc.xor_mapped_address peer);
  }

  success-Responds :
      (peer : PeerAddr) (r : Request c)
      → Responds r (rfc.xor_mapped_address peer) (ok (success peer r))
  unfolding SuccessResponse.from_message check_unknown_attributes required_unknowns
  success-Responds peer r =
      let k = MessageClass.success_response in
      let m = c.method r.message in
      let i = c.transaction_id r.message in
      let a = rfc.xor_mapped_address peer in
      ground (
        arith,
        laws.class-new k m i,
        laws.method-new k m i,
        laws.transaction_id-new k m i,
        laws.attributes-new k m i,
        laws.unknown_attributes-new k m i,
        laws.class-add_attribute (c.new k m i) a,
        laws.method-add_attribute (c.new k m i) a,
        laws.transaction_id-add_attribute (c.new k m i) a,
        laws.attributes-add_attribute (c.new k m i) a,
        laws.unknown_attributes-add_attribute (c.new k m i) a,
      )

  error-Responds :
      (r : Request c) (e : c.ErrorCode)
      → Responds r (c.from_error_code e) (err (ErrorResponse.new c r e))
  unfolding ErrorResponse.new ErrorResponse.method ErrorResponse.transaction_id
      ErrorResponse.into_message Request.method Request.transaction_id
  error-Responds r e =
      let k = MessageClass.error_response in
      let m = c.method r.message in
      let i = c.transaction_id r.message in
      let a = c.from_error_code e in
      ground (
        arith,
        laws.class-new k m i,
        laws.attributes-new k m i,
        laws.class-add_attribute (c.new k m i) a,
        laws.attributes-add_attribute (c.new k m i) a,
        from_message-new_response c laws r e,
      )

  -- The action is a reply: a success response if the request is a `BINDING` request, and an error
  -- response if not.
  abbrev pub Answers : PeerAddr → Request c → Action Future (Response c) → Type 0
  Answers peer r action =
      ((m : SuccessResponse c) × (c.method r.message ≡ rfc.binding)
        × (action ≡ reply (ok m))
        × Responds r (rfc.xor_mapped_address peer) (ok m))
      ⊎ ((m : ErrorResponse c) × (c.method r.message ≢ rfc.binding)
          × (action ≡ reply (err m))
          × Responds r (c.from_error_code rfc.bad_request) (err m))

  -- `BindingHandler` answers every request at once: a `BINDING` request by a success response with
  -- the one attribute `XorMappedAddress` of the peer, and any other by an error response with the one
  -- attribute `BadRequest`; the response has the request's method and transaction id, and passes
  -- `from_message` of its class.
  pub handle_call-Responds :
      (peer : PeerAddr) (r : Request c) → Answers peer r (handle_call c PeerAddr Future rfc peer r)
  unfolding handle_call SuccessResponse.add_attribute SuccessResponse.new Request.transaction_id
  handle_call-Responds peer r = elim (Bool-cases (nat_beq (c.method r.message) rfc.binding)) [
    | inl e ↦ inl (
      success peer r,
      (nat_beq_iff (c.method r.message) rfc.binding).0 e,
      ground arith,
      success-Responds peer r,
    )
    | inr e ↦ inr (
      ErrorResponse.new c r rfc.bad_request,
      ground arith,
      ground arith,
      error-Responds r rfc.bad_request,
    )
  ]

module _ (channel : ChannelEnv) (Future : Type 0)
    (rfc : Rfc5389 channel.codec channel.PeerAddr) where
  open channel use {codec, PeerAddr}

  abbrev pub binding_server : ServerEnv
  binding_server = record {
    channel = channel;
    Future = Future;
    handler = binding_handler codec PeerAddr Future rfc;
  }

  -- The first part of a round of a driver with `BindingHandler`, where the channel has received a
  -- `BINDING` request from a peer, and the transport takes the answer: what the transport is told to
  -- send goes to that peer, and is the success response with the request's method and transaction id
  -- and the peer's `XorMappedAddress`. Nothing but the channel's state changes.
  pub on_received-binding :
      (rounds now : ℕ) (peer : PeerAddr) (r : Request codec) (d : HandlerDriver binding_server)
      (ch : Channel channel) (t : channel.transport.State)
      → codec.method r.message ≡ rfc.binding
      → Poll.poll_recv channel rounds now d.channel ≡ done (ready (some (peer, request r))) ch
      → channel.transport.start_send now peer
          (codec.add_attribute
            (codec.new MessageClass.success_response
              (codec.method r.message)
              (codec.transaction_id r.message))
            (rfc.xor_mapped_address peer))
          ch.transporter
        ≡ done tt t
      → (or_tell binding_server (Poll.poll_recv channel rounds now)
            >>= on_received binding_server now)
          d
        ≡ done (did true) (record d { channel = record ch { transporter = t } })
  unfolding on_received handle_message handle_request act_on_call handle_call Channel.reply
      SuccessResponse.add_attribute SuccessResponse.new SuccessResponse.into_message
      Request.transaction_id
  on_received-binding rounds now peer r d ch t h recv send = ground arith
