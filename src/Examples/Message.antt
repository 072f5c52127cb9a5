-- ===== src/Examples/Message.antt =====
-- Runs of the message conversions.
use rustun.Prelude.{◌≡◌, [], ◌∷◌, ok}
use rustun.Codec.{MessageClass}
use rustun.Message.Request
use rustun.Message.Request.{Request}
use rustun.Message.Indication
use rustun.Message.Indication.{Indication}
use rustun.Message.SuccessResponse
use rustun.Message.SuccessResponse.{SuccessResponse}
use rustun.Message.ErrorResponse
use rustun.Message.ErrorResponse.{ErrorResponse}
use rustun.Message.Laws.{
  Judged, JudgedError, accepted, from_message-Judged, from_message-JudgedError,
}
use rustun.Message.Roundtrip.{from_message-new, from_message-new_response}
use rustun.Examples.Toy.{ToyMessage, toy_codec, toy_codec_laws}

-- An error response with an unknown attribute that is comprehension-required.
abbrev strange : ToyMessage
strange = record {
  class = MessageClass.error_response;
  method = 1;
  transaction_id = 5;
  attributes = 9 ∷ [];
  unknown_attributes = 0x9000 ∷ 0x7000 ∷ [];
}

from_message-Judged_example :
    Judged toy_codec MessageClass.request strange
      (accepted (λ r. r.message) (Request.from_message toy_codec strange))
    × Judged toy_codec MessageClass.indication strange
        (accepted (λ r. r.message) (Indication.from_message toy_codec strange))
    × Judged toy_codec MessageClass.success_response strange
        (accepted (λ r. r.message) (SuccessResponse.from_message toy_codec strange))
from_message-Judged_example = from_message-Judged toy_codec strange

from_message-JudgedError_example :
    JudgedError toy_codec strange
      (accepted (λ r. r.message) (ErrorResponse.from_message toy_codec strange))
from_message-JudgedError_example = from_message-JudgedError toy_codec strange

from_message-new_example :
    let request = Request.new toy_codec 1 5 in
    let indication = Indication.new toy_codec 1 5 in
    (Request.from_message toy_codec (Request.into_message toy_codec request) ≡ ok request)
    × (Request.from_message toy_codec
          (Request.into_message toy_codec (Request.add_attribute toy_codec request 32))
        ≡ ok (Request.add_attribute toy_codec request 32))
    × (Indication.from_message toy_codec (Indication.into_message toy_codec indication)
        ≡ ok indication)
    × (Indication.from_message toy_codec
          (Indication.into_message toy_codec (Indication.add_attribute toy_codec indication 32))
        ≡ ok (Indication.add_attribute toy_codec indication 32))
from_message-new_example = from_message-new toy_codec toy_codec_laws 1 5 32

from_message-new_response_example :
    let r : Request toy_codec = Request.new toy_codec 1 5 in
    let success = SuccessResponse.new toy_codec r in
    let error = ErrorResponse.new toy_codec r tt in
    (SuccessResponse.from_message toy_codec (SuccessResponse.into_message toy_codec success)
      ≡ ok success)
    × (SuccessResponse.method toy_codec success ≡ Request.method toy_codec r)
    × (SuccessResponse.transaction_id toy_codec success ≡ Request.transaction_id toy_codec r)
    × (ErrorResponse.from_message toy_codec (ErrorResponse.into_message toy_codec error) ≡ ok error)
    × (ErrorResponse.method toy_codec error ≡ Request.method toy_codec r)
    × (ErrorResponse.transaction_id toy_codec error ≡ Request.transaction_id toy_codec r)
from_message-new_response_example =
    from_message-new_response toy_codec toy_codec_laws (Request.new toy_codec 1 5) tt
