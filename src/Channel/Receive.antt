-- ===== src/Channel/Receive.antt =====
-- src/channel.rs: what `Channel` does with a message that it receives.
use rustun.Prelude.{
  ℕ, Option, none, some, ◌∷◌, Result, ok, err, done, fail, panic, running, nat_beq, if◌then◌else◌,
}
use rustun.Prelude.HashMap.{get, remove}
use rustun.Codec.{StunCodec, MessageClass}
use rustun.Error.{MessageErrorKind, ErrorKind, error_from_transport}
use rustun.Message.{InvalidMessage}
use rustun.Message.Request
use rustun.Message.Request.{Request}
use rustun.Message.Indication
use rustun.Message.Indication.{Indication}
use rustun.Message.SuccessResponse
use rustun.Message.ErrorResponse
use rustun.Message.ErrorResponse.{Response}
use rustun.Channel.{ChannelEnv, ChannelOp, Exit, key_partial_eq}

-- `RecvMessage`.
pub data RecvMessage (c : StunCodec) : Type 0 where
  request : Request c → RecvMessage c
  indication : Indication c → RecvMessage c
  invalid : InvalidMessage → RecvMessage c

module _ (c : StunCodec) where
  -- The `InvalidMessage` about a message.
  abbrev pub invalid_message : c.Message → MessageErrorKind → RecvMessage c
  invalid_message m e = invalid (record {
    method = c.method m;
    class = c.class m;
    transaction_id = c.transaction_id m;
    error = e;
  })

  unfoldable pub handle_broken_message : c.BrokenMessage → RecvMessage c
  handle_broken_message m = invalid (record {
    method = c.broken_method m;
    class = c.broken_class m;
    transaction_id = c.broken_transaction_id m;
    error = MessageErrorKind.malformed_attribute;
  })

  unfoldable pub handle_indication : c.Message → RecvMessage c
  handle_indication m = elim (Indication.from_message c m) [
    | err e ↦ invalid_message m e
    | ok i ↦ indication i
  ]

  unfoldable pub handle_request : c.Message → RecvMessage c
  handle_request m = elim (Request.from_message c m) [
    | err e ↦ invalid_message m e
    | ok r ↦ request r
  ]

  -- The `result` of `handle_success_response`, for a call of the method `method`.
  unfoldable pub success_result : ℕ → c.Message → Exit c
  success_result method m = elim (SuccessResponse.from_message c m) [
    | err e ↦ err (some e)
    | ok r ↦
        if nat_beq (SuccessResponse.method c r) method
        then ok (ok r)
        else err (some MessageErrorKind.unexpected_response)
  ]

  -- The `result` of `handle_error_response`.
  unfoldable pub error_result : ℕ → c.Message → Exit c
  error_result method m = elim (ErrorResponse.from_message c m) [
    | err e ↦ err (some e)
    | ok r ↦
        if nat_beq (ErrorResponse.method c r) method
        then ok (err r)
        else err (some MessageErrorKind.unexpected_response)
  ]

module _ (env : ChannelEnv) where
  open env use {codec, PeerAddr}

  -- The end of a transaction that `tx` waits for: the transport is told, and `tx` gets the result. If
  -- the transport fails, `tx` is dropped.
  unfoldable pub conclude :
      ℕ → PeerAddr → ℕ → ℕ → Exit codec → ChannelOp env ErrorKind (Option (RecvMessage codec))
  conclude now peer id tx result ch =
      elim (env.transport.finish_transaction now peer id ch.transporter) [
        | done _ t ↦ done none (record ch { transporter = t; exits = (tx, result) ∷ ch.exits })
        | fail e t ↦
            fail (error_from_transport e)
              (record ch { transporter = t; exits = (tx, err none) ∷ ch.exits })
        | panic x ↦ panic x
        | running ↦ running
      ]

  -- `handle_success_response` and `handle_error_response`, which differ in the result only.
  unfoldable pub handle_response :
      (ℕ → codec.Message → Exit codec)
      → ℕ
      → PeerAddr
      → codec.Message
      → ChannelOp env ErrorKind (Option (RecvMessage codec))
  handle_response result now peer m ch =
      let id = codec.transaction_id m in
      elim (get ⦃e = key_partial_eq env⦄ (peer, id) ch.transactions) [
        | none ↦ done (some (invalid_message codec m MessageErrorKind.unexpected_response)) ch
        | some (method, tx) ↦ conclude now peer id tx (result method m) (record ch {
          transactions = remove ⦃e = key_partial_eq env⦄ (peer, id) ch.transactions;
        })
      ]

  unfoldable pub handle_success_response :
      ℕ → PeerAddr → codec.Message → ChannelOp env ErrorKind (Option (RecvMessage codec))
  unfolding handle_response
  handle_success_response = handle_response (success_result codec)

  unfoldable pub handle_error_response :
      ℕ → PeerAddr → codec.Message → ChannelOp env ErrorKind (Option (RecvMessage codec))
  unfolding handle_response
  handle_error_response = handle_response (error_result codec)

  -- The message for the caller of `poll_recv`, if there is one.
  unfoldable pub handle_message :
      ℕ
      → PeerAddr
      → Result codec.Message codec.BrokenMessage
      → ChannelOp env ErrorKind (Option (RecvMessage codec))
  handle_message now peer (err broken) ch = done (some (handle_broken_message codec broken)) ch
  handle_message now peer (ok m) ch = elim (codec.class m) [
    | MessageClass.indication ↦ done (some (handle_indication codec m)) ch
    | MessageClass.request ↦ done (some (handle_request codec m)) ch
    | MessageClass.success_response ↦ handle_success_response now peer m ch
    | MessageClass.error_response ↦ handle_error_response now peer m ch
  ]
