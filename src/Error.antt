-- ===== src/Error.antt =====
-- src/error.rs: the error kinds and the conversions between them. An error is its kind: the cause
-- and the tracking history of a `TrackableError` are for diagnostics only and are left out.
use rustun.Prelude.{ℕ, Option, none, some, List}

-- `MessageErrorKind`.
pub data MessageErrorKind : Type 0 where
  unexpected_response malformed_attribute : MessageErrorKind
  unknown_attributes : List ℕ → MessageErrorKind
  invalid_input timeout other : MessageErrorKind

-- `ErrorKind`.
pub data ErrorKind : Type 0 where
  invalid_input : ErrorKind
  invalid_message : MessageErrorKind → ErrorKind
  other : ErrorKind

-- The kinds of fibers_transport::Error and of bytecodec::Error: the conversions below tell
-- `InvalidInput` from the rest, so every other kind is `other_kind` with a number.
pub data ForeignErrorKind : Type 0 where
  invalid_input : ForeignErrorKind
  other_kind : ℕ → ForeignErrorKind

-- `MonitorError` carries the error of the other end, if that end did not just disappear.
unfoldable pub error_from_monitor : Option ErrorKind → ErrorKind
error_from_monitor none = ErrorKind.other
error_from_monitor (some e) = e

-- From<io::Error>, From<SendError<T>> and From<ErrorCode>, whatever the payload.
unfoldable pub error_from_io {ℓ} : {A : Type ℓ} → A → ErrorKind
error_from_io e = ErrorKind.other

unfoldable pub error_from_send {ℓ} : {A : Type ℓ} → A → ErrorKind
error_from_send e = ErrorKind.other

unfoldable pub error_from_error_code {ℓ} : {A : Type ℓ} → A → ErrorKind
error_from_error_code e = ErrorKind.other

unfoldable pub error_from_bytecodec : ForeignErrorKind → ErrorKind
error_from_bytecodec ForeignErrorKind.invalid_input = ErrorKind.invalid_input
error_from_bytecodec (ForeignErrorKind.other_kind n) = ErrorKind.other

unfoldable pub error_from_message : MessageErrorKind → ErrorKind
error_from_message k = ErrorKind.invalid_message k

unfoldable pub error_from_transport : ForeignErrorKind → ErrorKind
error_from_transport ForeignErrorKind.invalid_input = ErrorKind.invalid_input
error_from_transport (ForeignErrorKind.other_kind n) = ErrorKind.other

unfoldable pub message_error_from_monitor : Option MessageErrorKind → MessageErrorKind
message_error_from_monitor none = MessageErrorKind.other
message_error_from_monitor (some e) = e

unfoldable pub message_error_from_error : ErrorKind → MessageErrorKind
message_error_from_error e = MessageErrorKind.other

unfoldable pub message_error_from_transport : ForeignErrorKind → MessageErrorKind
message_error_from_transport ForeignErrorKind.invalid_input = MessageErrorKind.invalid_input
message_error_from_transport (ForeignErrorKind.other_kind n) = MessageErrorKind.other
