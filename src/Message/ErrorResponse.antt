-- ===== src/Message/ErrorResponse.antt =====
-- src/message.rs, `ErrorResponse`.
use rustun.Prelude.{ℕ, ok, List, Option, Bool, any, nat_beq, map, ◌++◌, Result}
use rustun.Codec.{StunCodec, MessageClass, class_beq}
use rustun.Error.{MessageErrorKind}
use rustun.Message.{MessageResult, ◌>>◌, track_assert, check_unknown_attributes}
use rustun.Message.Request
use rustun.Message.Request.{Request}
use rustun.Message.SuccessResponse.{SuccessResponse}

pub record ErrorResponse (c : StunCodec) : Type 0 where
  pub message : c.Message

module _ (c : StunCodec) where
  unfoldable pub new : Request c → c.ErrorCode → ErrorResponse c
  unfolding Request.method Request.transaction_id
  new request error = record {
    message =
        c.add_attribute
          (c.new MessageClass.error_response (Request.method c request)
            (Request.transaction_id c request))
          (c.from_error_code error);
  }

  -- Some attribute, known or unknown, is an `ERROR-CODE`.
  unfoldable pub contains_error_code : c.Message → Bool
  contains_error_code m =
      any (λ t. nat_beq t c.error_code_codepoint)
        (map c.get_type (c.attributes m) ++ map c.raw_get_type (c.unknown_attributes m))

  unfoldable pub from_message : c.Message → MessageResult (ErrorResponse c)
  from_message m = do
    track_assert (class_beq (c.class m) MessageClass.error_response) MessageErrorKind.invalid_input
    check_unknown_attributes c m
    track_assert (contains_error_code m) MessageErrorKind.invalid_input
    ok (record { message = m })

  unfoldable pub method : ErrorResponse c → ℕ
  method r = c.method r.message

  unfoldable pub transaction_id : ErrorResponse c → ℕ
  transaction_id r = c.transaction_id r.message

  -- `try_as_ref` stands for `A: TryAsRef<T>`.
  unfoldable pub get_attribute :
      {T : Type 0} → (c.Attribute → Option T) → ErrorResponse c → Option T
  get_attribute {T} try_as_ref r = c.get_attribute T try_as_ref r.message

  unfoldable pub attributes : ErrorResponse c → List c.Attribute
  attributes r = c.attributes r.message

  unfoldable pub add_attribute : ErrorResponse c → c.Attribute → ErrorResponse c
  add_attribute r a = record { message = c.add_attribute r.message a }

  unfoldable pub into_message : ErrorResponse c → c.Message
  into_message r = r.message

  unfoldable pub as_ref : ErrorResponse c → c.Message
  as_ref r = r.message

  -- `change` is what is done to the message by the reference that `as_mut` returns.
  unfoldable pub as_mut : (c.Message → c.Message) → ErrorResponse c → ErrorResponse c
  as_mut change r = record { message = change r.message }

-- `Response<A>`.
abbrev pub Response : StunCodec → Type 0
Response c = Result (SuccessResponse c) (ErrorResponse c)
