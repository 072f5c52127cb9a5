-- ===== src/Server/Binding.antt =====
-- src/server.rs, `BindingHandler`.
use rustun.Prelude.{ℕ, ok, err, if◌then◌else◌, nat_beq}
use rustun.Codec.{StunCodec}
use rustun.Message.Request
use rustun.Message.Request.{Request}
use rustun.Message.SuccessResponse
use rustun.Message.ErrorResponse
use rustun.Message.ErrorResponse.{Response}
use rustun.Server.{Action, reply, no_reply, HandleMessage}

-- What the handler uses of stun_codec::rfc5389: the method `BINDING`, the attribute
-- `XorMappedAddress` of a peer, and the error code of `BadRequest`.
pub record Rfc5389 (c : StunCodec) (PeerAddr : Type 0) : Type 0 where
  pub binding : ℕ
  pub xor_mapped_address : PeerAddr → c.Attribute
  pub bad_request : c.ErrorCode

module _ (c : StunCodec) (PeerAddr Future : Type 0) (rfc : Rfc5389 c PeerAddr) where
  unfoldable pub handle_call : PeerAddr → Request c → Action Future (Response c)
  unfolding Request.method
  handle_call peer request =
      if nat_beq (Request.method c request) rfc.binding
      then reply (
          ok (
            SuccessResponse.add_attribute c (SuccessResponse.new c request)
              (rfc.xor_mapped_address peer)))
      else reply (err (ErrorResponse.new c request rfc.bad_request))

  -- `BindingHandler` has no state, and the default methods but for `handle_call`.
  abbrev pub binding_handler : HandleMessage c PeerAddr Future
  binding_handler = record {
    State = Unit {0};
    handle_call = λ peer request s. (handle_call peer request, s);
    handle_cast = λ peer indication s. (no_reply, s);
    handle_invalid_message = λ peer message s. (no_reply, s);
    handle_channel_error = λ error s. s;
  }
