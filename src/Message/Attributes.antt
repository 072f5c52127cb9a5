-- ===== src/Message/Attributes.antt =====
-- What is found among the attributes of a message: `get_attribute` of src/message.rs.
use rustun.Prelude.{arith, [], ◌∷◌, ◌≡◌, Option}
use rustun.Codec.{StunCodec, IsStunCodec}

module _ (c : StunCodec) (laws : IsStunCodec c) {T : Type 0} (f : c.Attribute → Option T) where
  -- A message with one attribute.
  pub get_attribute-one :
      (m : c.Message) (a : c.Attribute) → c.attributes m ≡ a ∷ [] → c.get_attribute T f m ≡ f a
  get_attribute-one m a h = ground (arith, laws.get_attribute-attributes T f m, h)
