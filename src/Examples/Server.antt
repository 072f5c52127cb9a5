-- ===== src/Examples/Server.antt =====
-- Runs of a server's driver.
use rustun.Prelude.{ℕ, ◌+◌, ◌≡◌, refl, [], ◌∷◌, ok}
use rustun.Codec.{MessageClass}
use rustun.Error.{ErrorKind, MessageErrorKind, error_from_message, message_error_from_transport}
use rustun.Message.{check_unknown_attributes, required_unknowns}
use rustun.Message.Request
use rustun.Message.Request.{Request}
use rustun.Message.SuccessResponse
use rustun.Message.ErrorResponse
use rustun.Message.ErrorResponse.{Response}
use rustun.Channel
use rustun.Channel.{Channel}
use rustun.Channel.Receive.{request}
use rustun.Channel.Receive
use rustun.Channel.Poll
use rustun.Server.{ServerEnv, HandlerDriver}
use rustun.Server.Binding.{Rfc5389, handle_call}
use rustun.Server.Driver.{
  poll, poll_round, on_received, handle_message, handle_request, act_on_call, poll_next,
  after_received, send_response,
}
use rustun.Server.Answers.{Answers, binding_server, handle_call-Responds}
use rustun.Server.Errors.{handled, handle_message-fail, Accounted, poll-fail}
use rustun.Server.Serves.{Sends}
use rustun.Server.Serves.Polls.{poll-Serves}
use rustun.Examples.Toy.{ToyMessage, toy_codec, toy_codec_laws}
use rustun.Examples.Inbox.{Inbox, inbox_channel}
use rustun.Examples.Channel.{binding}

-- The attribute `XorMappedAddress` of the peer n is 0x20 + n, in this codec.
abbrev pub toy_rfc : Rfc5389 toy_codec ℕ
toy_rfc = record { binding = 1; xor_mapped_address = λ peer. 0x20 + peer; bad_request = tt }

handle_call-Responds_example :
    Answers toy_codec toy_codec_laws
      (Unit {0})
      toy_rfc
      7
      (binding 5)
      (handle_call toy_codec ℕ (Unit {0}) toy_rfc 7 (binding 5))
handle_call-Responds_example =
    handle_call-Responds toy_codec toy_codec_laws (Unit {0}) toy_rfc 7 (binding 5)

abbrev inbox_server : ServerEnv
inbox_server = binding_server inbox_channel (Unit {0}) toy_rfc

abbrev idle : Inbox → Channel inbox_channel
idle s = record {
  transporter = s;
  timeout_queue = [];
  request_timeout = 50;
  transactions = [];
  next_handle = 0;
  exits = [];
}

abbrev driver : Inbox → HandlerDriver inbox_server
driver s = record { spawned = []; handler = tt; channel = idle s; response_rx = [] }

abbrev pub answer : ToyMessage
answer = record {
  class = MessageClass.success_response;
  method = 1;
  transaction_id = 5;
  attributes = 0x27 ∷ [];
  unknown_attributes = [];
}

-- The answer to the peer 0 is refused.
handle_message-fail_example :
    (k : MessageErrorKind) × (ErrorKind.invalid_message MessageErrorKind.invalid_input
      ≡ ErrorKind.invalid_message k)
    × (tt {0} ≡ handled inbox_server 0 (request (binding 5)) tt)
unfolding handle_message handle_request act_on_call handle_call Channel.reply
    ErrorResponse.into_message SuccessResponse.into_message error_from_message
    message_error_from_transport
handle_message-fail_example =
    handle_message-fail inbox_server 20 0 (request (binding 5)) (driver ([], [])) (driver ([], []))
      (ErrorKind.invalid_message MessageErrorKind.invalid_input) refl

-- The driver receives a request of the peer 0, whose answer is refused.
poll-fail_example :
    Accounted inbox_server
      (ErrorKind.invalid_message MessageErrorKind.invalid_input)
      (driver ([], []))
unfolding poll poll_round handle_message handle_request act_on_call handle_call on_received
    Channel.reply ErrorResponse.into_message SuccessResponse.into_message error_from_message
    message_error_from_transport Poll.poll_recv Poll.handle_timeout Poll.timeout_round
    Poll.recv_loop Poll.recv_round Poll.recv_next Receive.handle_message Receive.handle_request
    Request.from_message check_unknown_attributes required_unknowns
poll-fail_example =
    poll-fail inbox_server 2 3 20 (driver ((0, ok (binding 5).message) ∷ [], [])) (driver ([], []))
      (ErrorKind.invalid_message MessageErrorKind.invalid_input) refl

abbrev two_wait : HandlerDriver inbox_server
two_wait = record (driver ([], [])) {
  response_rx =
      (7, ok (record { message = answer }))
      ∷ (8, ok (record { message = record answer { transaction_id = 6 } }))
      ∷ [];
}

abbrev both_sent : HandlerDriver inbox_server
both_sent = driver ([], (8, record answer { transaction_id = 6 }) ∷ (7, answer) ∷ [])

poll-Serves_example :
    Sends inbox_server 20 two_wait.channel two_wait.response_rx both_sent.channel
    × (both_sent.response_rx ≡ [])
unfolding poll poll_round poll_next on_received after_received send_response Channel.reply
    SuccessResponse.into_message Poll.poll_send Poll.poll_recv Poll.handle_timeout
    Poll.timeout_round Poll.recv_loop Poll.recv_round
poll-Serves_example = poll-Serves inbox_server 3 3 20 two_wait both_sent refl
