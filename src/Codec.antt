-- ===== src/Codec.antt =====
-- What the program uses of the crate stun_codec (Message, MessageClass, Method, TransactionId,
-- Attribute, BrokenMessage): a parameter of the model. Methods (12 bits), transaction ids (96 bits)
-- and attribute types (16 bits) are only compared, so they are numbers.
use rustun.Prelude.{ℕ, ◌≡◌, Bool, true, false, List, [], ◌∷◌, ◌++◌, Option, find_map}

pub data MessageClass : Type 0 where
  request indication success_response error_response : MessageClass

abbrev pub class_beq : MessageClass → MessageClass → Bool
class_beq MessageClass.request MessageClass.request = true
class_beq MessageClass.indication MessageClass.indication = true
class_beq MessageClass.success_response MessageClass.success_response = true
class_beq MessageClass.error_response MessageClass.error_response = true
class_beq _ _ = false

pub record StunCodec : Type 1 where
  pub Message : Type 0
  pub Attribute : Type 0
  pub RawAttribute : Type 0
  pub BrokenMessage : Type 0
  pub ErrorCode : Type 0
  pub new : MessageClass → ℕ → ℕ → Message
  pub class : Message → MessageClass
  pub method : Message → ℕ
  pub transaction_id : Message → ℕ
  pub attributes : Message → List Attribute
  pub unknown_attributes : Message → List RawAttribute
  pub add_attribute : Message → Attribute → Message
  -- The first attribute that is a `T`; the function stands for `TryAsRef<T>`.
  pub get_attribute : (T : Type 0) → (Attribute → Option T) → Message → Option T
  pub get_type : Attribute → ℕ
  pub raw_get_type : RawAttribute → ℕ
  pub is_comprehension_required : ℕ → Bool
  pub error_code_codepoint : ℕ
  pub from_error_code : ErrorCode → Attribute
  pub broken_class : BrokenMessage → MessageClass
  pub broken_method : BrokenMessage → ℕ
  pub broken_transaction_id : BrokenMessage → ℕ

-- The documented behaviour of `Message::new`, `Message::add_attribute`, `Message::get_attribute` and
-- `ErrorCode`.
pub record IsStunCodec (c : StunCodec) : Type 1 where
  pub class-new : (k : MessageClass) (m i : ℕ) → c.class (c.new k m i) ≡ k
  pub method-new : (k : MessageClass) (m i : ℕ) → c.method (c.new k m i) ≡ m
  pub transaction_id-new : (k : MessageClass) (m i : ℕ) → c.transaction_id (c.new k m i) ≡ i
  pub attributes-new : (k : MessageClass) (m i : ℕ) → c.attributes (c.new k m i) ≡ []
  pub unknown_attributes-new :
      (k : MessageClass) (m i : ℕ) → c.unknown_attributes (c.new k m i) ≡ []
  pub class-add_attribute :
      (m : c.Message) (a : c.Attribute) → c.class (c.add_attribute m a) ≡ c.class m
  pub method-add_attribute :
      (m : c.Message) (a : c.Attribute) → c.method (c.add_attribute m a) ≡ c.method m
  pub transaction_id-add_attribute :
      (m : c.Message) (a : c.Attribute)
      → c.transaction_id (c.add_attribute m a) ≡ c.transaction_id m
  pub attributes-add_attribute :
      (m : c.Message) (a : c.Attribute)
      → c.attributes (c.add_attribute m a) ≡ c.attributes m ++ a ∷ []
  pub unknown_attributes-add_attribute :
      (m : c.Message) (a : c.Attribute)
      → c.unknown_attributes (c.add_attribute m a) ≡ c.unknown_attributes m
  pub get_attribute-attributes :
      (T : Type 0) (try_as_ref : c.Attribute → Option T) (m : c.Message)
      → c.get_attribute T try_as_ref m ≡ find_map try_as_ref (c.attributes m)
  pub get_type-from_error_code :
      (e : c.ErrorCode) → c.get_type (c.from_error_code e) ≡ c.error_code_codepoint
