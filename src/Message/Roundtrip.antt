-- ===== src/Message/Roundtrip.antt =====
-- What `new` and `add_attribute` make is accepted by `from_message` again: src/message.rs.
use rustun.Prelude.{ℕ, ◌≡◌, ok, arith}
use rustun.Codec.{StunCodec, IsStunCodec, MessageClass}
use rustun.Message.{check_unknown_attributes, required_unknowns}
use rustun.Message.Request
use rustun.Message.Request.{Request}
use rustun.Message.Indication
use rustun.Message.Indication.{Indication}
use rustun.Message.SuccessResponse
use rustun.Message.SuccessResponse.{SuccessResponse}
use rustun.Message.ErrorResponse
use rustun.Message.ErrorResponse.{ErrorResponse, contains_error_code}

module _ (c : StunCodec) (laws : IsStunCodec c) where
  -- A new request or indication, with an attribute added or not, is accepted as it is.
  pub from_message-new :
      (method id : ℕ) (a : c.Attribute)
      → let request = Request.new c method id in
        let indication = Indication.new c method id in
        (Request.from_message c (Request.into_message c request) ≡ ok request)
        × (Request.from_message c (Request.into_message c (Request.add_attribute c request a))
            ≡ ok (Request.add_attribute c request a))
        × (Indication.from_message c (Indication.into_message c indication) ≡ ok indication)
        × (Indication.from_message c
              (Indication.into_message c (Indication.add_attribute c indication a))
            ≡ ok (Indication.add_attribute c indication a))
  unfolding Request.from_message Request.into_message Request.new Request.add_attribute
      Indication.from_message Indication.into_message Indication.new Indication.add_attribute
      check_unknown_attributes required_unknowns
  from_message-new method id a =
      let request = MessageClass.request in
      let indication = MessageClass.indication in
      let m = c.new request method id in
      let n = c.new indication method id in
      ground (
        arith,
        laws.class-new request method id,
        laws.class-new indication method id,
        laws.unknown_attributes-new request method id,
        laws.unknown_attributes-new indication method id,
        laws.class-add_attribute m a,
        laws.class-add_attribute n a,
        laws.unknown_attributes-add_attribute m a,
        laws.unknown_attributes-add_attribute n a,
      )

  -- The two responses to a request are accepted as they are, with the request's method and
  -- transaction id.
  pub from_message-new_response :
      (r : Request c) (e : c.ErrorCode)
      → let success = SuccessResponse.new c r in
        let error = ErrorResponse.new c r e in
        (SuccessResponse.from_message c (SuccessResponse.into_message c success) ≡ ok success)
        × (SuccessResponse.method c success ≡ Request.method c r)
        × (SuccessResponse.transaction_id c success ≡ Request.transaction_id c r)
        × (ErrorResponse.from_message c (ErrorResponse.into_message c error) ≡ ok error)
        × (ErrorResponse.method c error ≡ Request.method c r)
        × (ErrorResponse.transaction_id c error ≡ Request.transaction_id c r)
  unfolding Request.method Request.transaction_id SuccessResponse.from_message
      SuccessResponse.into_message SuccessResponse.new SuccessResponse.method
      SuccessResponse.transaction_id ErrorResponse.from_message ErrorResponse.into_message
      ErrorResponse.new ErrorResponse.method ErrorResponse.transaction_id contains_error_code
      check_unknown_attributes required_unknowns
  from_message-new_response r e =
      let method = c.method r.message in
      let id = c.transaction_id r.message in
      let success = MessageClass.success_response in
      let error = MessageClass.error_response in
      let m = c.new error method id in
      let a = c.from_error_code e in
      ground (
        arith,
        laws.class-new success method id,
        laws.method-new success method id,
        laws.transaction_id-new success method id,
        laws.unknown_attributes-new success method id,
        laws.class-new error method id,
        laws.method-new error method id,
        laws.transaction_id-new error method id,
        laws.attributes-new error method id,
        laws.unknown_attributes-new error method id,
        laws.class-add_attribute m a,
        laws.method-add_attribute m a,
        laws.transaction_id-add_attribute m a,
        laws.attributes-add_attribute m a,
        laws.unknown_attributes-add_attribute m a,
        laws.get_type-from_error_code e,
      )
