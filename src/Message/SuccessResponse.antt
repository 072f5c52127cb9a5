-- ===== src/Message/SuccessResponse.antt =====
-- src/message.rs, `SuccessResponse`.
use rustun.Prelude.{ℕ, ok, List, Option}
use rustun.Codec.{StunCodec, MessageClass, class_beq}
use rustun.Error.{MessageErrorKind}
use rustun.Message.{MessageResult, ◌>>◌, track_assert, check_unknown_attributes}
use rustun.Message.Request
use rustun.Message.Request.{Request}

pub record SuccessResponse (c : StunCodec) : Type 0 where
  pub message : c.Message

module _ (c : StunCodec) where
  unfoldable pub new : Request c → SuccessResponse c
  unfolding Request.method Request.transaction_id
  new request = record {
    message =
        c.new MessageClass.success_response (Request.method c request)
          (Request.transaction_id c request);
  }

  unfoldable pub from_message : c.Message → MessageResult (SuccessResponse c)
  from_message m = do
    track_assert (class_beq (c.class m) MessageClass.success_response)
        MessageErrorKind.invalid_input
    check_unknown_attributes c m
    ok (record { message = m })

  unfoldable pub method : SuccessResponse c → ℕ
  method r = c.method r.message

  unfoldable pub transaction_id : SuccessResponse c → ℕ
  transaction_id r = c.transaction_id r.message

  -- `try_as_ref` stands for `A: TryAsRef<T>`.
  unfoldable pub get_attribute :
      {T : Type 0} → (c.Attribute → Option T) → SuccessResponse c → Option T
  get_attribute {T} try_as_ref r = c.get_attribute T try_as_ref r.message

  unfoldable pub attributes : SuccessResponse c → List c.Attribute
  attributes r = c.attributes r.message

  unfoldable pub add_attribute : SuccessResponse c → c.Attribute → SuccessResponse c
  add_attribute r a = record { message = c.add_attribute r.message a }

  unfoldable pub into_message : SuccessResponse c → c.Message
  into_message r = r.message

  unfoldable pub as_ref : SuccessResponse c → c.Message
  as_ref r = r.message

  -- `change` is what is done to the message by the reference that `as_mut` returns.
  unfoldable pub as_mut : (c.Message → c.Message) → SuccessResponse c → SuccessResponse c
  as_mut change r = record { message = change r.message }
