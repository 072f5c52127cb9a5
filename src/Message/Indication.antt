-- ===== src/Message/Indication.antt =====
-- src/message.rs, `Indication`.
use rustun.Prelude.{ℕ, ok, List, Option}
use rustun.Codec.{StunCodec, MessageClass, class_beq}
use rustun.Error.{MessageErrorKind}
use rustun.Message.{MessageResult, ◌>>◌, track_assert, check_unknown_attributes}

pub record Indication (c : StunCodec) : Type 0 where
  pub message : c.Message

module _ (c : StunCodec) where
  -- The transaction id is drawn at random: it is an argument here.
  unfoldable pub new : ℕ → ℕ → Indication c
  new method id = record { message = c.new MessageClass.indication method id }

  unfoldable pub from_message : c.Message → MessageResult (Indication c)
  from_message m = do
    track_assert (class_beq (c.class m) MessageClass.indication) MessageErrorKind.invalid_input
    check_unknown_attributes c m
    ok (record { message = m })

  unfoldable pub method : Indication c → ℕ
  method r = c.method r.message

  unfoldable pub transaction_id : Indication c → ℕ
  transaction_id r = c.transaction_id r.message

  -- `try_as_ref` stands for `A: TryAsRef<T>`.
  unfoldable pub get_attribute : {T : Type 0} → (c.Attribute → Option T) → Indication c → Option T
  get_attribute {T} try_as_ref r = c.get_attribute T try_as_ref r.message

  unfoldable pub attributes : Indication c → List c.Attribute
  attributes r = c.attributes r.message

  unfoldable pub add_attribute : Indication c → c.Attribute → Indication c
  add_attribute r a = record { message = c.add_attribute r.message a }

  unfoldable pub into_message : Indication c → c.Message
  into_message r = r.message

  unfoldable pub as_ref : Indication c → c.Message
  as_ref r = r.message

  -- `change` is what is done to the message by the reference that `as_mut` returns.
  unfoldable pub as_mut : (c.Message → c.Message) → Indication c → Indication c
  as_mut change r = record { message = change r.message }
