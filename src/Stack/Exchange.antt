-- ===== src/Stack/Exchange.antt =====
-- A request and its answer: the channel of a caller, and the server with `BindingHandler`.
use rustun.Prelude.{
  ℕ, Option, [], ◌≡◌, none, some, ◌∷◌, ok, err, done, nat_beq_iff, arith, inl, inr, ◌≢◌,
}
use rustun.Prelude.HashMap.{get}
use rustun.Codec.{IsStunCodec}
use rustun.Message.Request.{Request}
use rustun.Message.Attributes.{get_attribute-one}
use rustun.Message.SuccessResponse
use rustun.Message.ErrorResponse
use rustun.Message.ErrorResponse.{Response}
use rustun.Channel.{ChannelEnv, Channel, key_partial_eq, response_message}
use rustun.Channel.Receive.{
  handle_message, handle_response, handle_success_response, handle_error_response, success_result,
  error_result, conclude,
}
use rustun.Channel.Steps.{end_with}
use rustun.Server.{reply}
use rustun.Server.Binding.{Rfc5389, handle_call}
use rustun.Server.Answers.{Responds, handle_call-Responds}

module _ (env : ChannelEnv) (laws : IsStunCodec env.codec) {ClientAddr : Type 0} (Future : Type 0)
    (rfc : Rfc5389 env.codec ClientAddr) where
  open env use {codec, PeerAddr}

  -- The channel takes the response as the result of the transaction that waits for it.
  pub handle_message-Responds :
      (now : ℕ) (peer : PeerAddr) (r : Request codec) (a : codec.Attribute) (x : Response codec)
      (tx : ℕ) (ch : Channel env) (t : env.transport.State)
      → Responds codec laws Future rfc r a x
      → get ⦃e = key_partial_eq env⦄ (peer, codec.transaction_id r.message) ch.transactions
        ≡ some (codec.method r.message, tx)
      → env.transport.finish_transaction now peer (codec.transaction_id r.message) ch.transporter
        ≡ done tt t
      → handle_message env now peer (ok (response_message env x)) ch
        ≡ done none (
            end_with env
              (peer, codec.transaction_id r.message)
              tx
              (ok x)
              (record ch { transporter = t }))
  unfolding handle_message handle_success_response handle_error_response handle_response conclude
      success_result error_result SuccessResponse.into_message ErrorResponse.into_message
      SuccessResponse.method ErrorResponse.method
  handle_message-Responds now peer r a (ok m) tx ch t (k, i, j, l, f) found fin =
      (ground (
        arith,
        k,
        j,
        i,
        f,
        found,
        fin,
        nat_beq_iff (codec.method m.message) (codec.method r.message),
      ))
  handle_message-Responds now peer r a (err m) tx ch t (k, i, j, l, f) found fin =
      (ground (
        arith,
        k,
        j,
        i,
        f,
        found,
        fin,
        nat_beq_iff (codec.method m.message) (codec.method r.message),
      ))

  -- What a client finds in the response to a `BINDING` request: its own address, as the server saw it,
  -- in the one attribute, which `get_attribute` returns if it is of the type that is asked for.
  abbrev pub Tells :
      {T : Type 0}
      → (codec.Attribute → Option T)
      → ClientAddr
      → Request codec
      → Response codec
      → Type 0
  Tells try_as_ref addr r (ok m) =
      (codec.attributes m.message ≡ rfc.xor_mapped_address addr ∷ [])
      × (SuccessResponse.get_attribute codec try_as_ref m
          ≡ try_as_ref (rfc.xor_mapped_address addr))
  Tells try_as_ref addr r (err m) = codec.method r.message ≢ rfc.binding

  -- A request of an outstanding transaction, seen by `BindingHandler` as from `addr`, is answered by a
  -- reply, and the caller's channel, when it receives that reply from the server's address, gives it
  -- to the call as its result and ends the transaction, as long as the transport takes the end of the
  -- transaction. For a `BINDING` request the reply is a success response with the one attribute
  -- `XorMappedAddress` of `addr`, and what `get_attribute` returns is that attribute, taken as the type
  -- that is asked for.
  pub handle_message-handle_call :
      (now : ℕ) (peer : PeerAddr) (addr : ClientAddr) (r : Request codec) (tx : ℕ)
      (ch : Channel env) (t : env.transport.State) {T : Type 0}
      (try_as_ref : codec.Attribute → Option T)
      → get ⦃e = key_partial_eq env⦄ (peer, codec.transaction_id r.message) ch.transactions
        ≡ some (codec.method r.message, tx)
      → env.transport.finish_transaction now peer (codec.transaction_id r.message) ch.transporter
        ≡ done tt t
      → (x : Response codec) × (handle_call codec ClientAddr Future rfc addr r ≡ reply x)
        × Tells try_as_ref addr r x
        × (handle_message env now peer (ok (response_message env x)) ch
            ≡ done none (
                end_with env
                  (peer, codec.transaction_id r.message)
                  tx
                  (ok x)
                  (record ch { transporter = t })))
  unfolding SuccessResponse.get_attribute
  handle_message-handle_call now peer addr r tx ch t try_as_ref found fin =
      elim (handle_call-Responds codec laws Future rfc addr r) [
        | inl (m, b, e, s) ↦ (
          ok m,
          e,
          (
            s.3,
            get_attribute-one codec laws try_as_ref m.message (rfc.xor_mapped_address addr) s.3,
          ),
          handle_message-Responds now peer r _ (ok m) tx ch t s found fin,
        )
        | inr (m, b, e, s) ↦
            (err m, e, b, handle_message-Responds now peer r _ (err m) tx ch t s found fin)
      ]
