-- ===== src/Message.antt =====
-- src/message.rs: `InvalidMessage` and `check_unknown_attributes`. The four classes of messages have a
-- child module each.
pub mod Request
pub mod Indication
pub mod SuccessResponse
pub mod ErrorResponse
pub mod Laws
pub mod Attributes
pub mod Roundtrip
use rustun.Prelude.{ℕ, Bool, List, [], ◌∷◌, if◌then◌else◌, is_empty, Result, ok, err}
use rustun.Codec.{StunCodec, MessageClass}
use rustun.Error.{MessageErrorKind}

-- `MessageResult`.
abbrev pub MessageResult : Type 0 → Type 0
MessageResult A = Result A MessageErrorKind

-- `InvalidMessage`.
pub record InvalidMessage : Type 0 where
  pub method : ℕ
  pub class : MessageClass
  pub transaction_id : ℕ
  pub error : MessageErrorKind

-- `?` on a `MessageResult`.
infixl 5 ◌>>=◌
abbrev pub ◌>>=◌ : {A B : Type 0} → MessageResult A → (A → MessageResult B) → MessageResult B
ok a >>= f = f a
err e >>= f = err e

-- `track_assert!(test, kind)`, as a step of a `do` block.
infixl 5 ◌>>◌
abbrev pub ◌>>◌ : {B : Type 0} → MessageResult (Unit {0}) → MessageResult B → MessageResult B
m >> k = m >>= λ _. k

abbrev pub track_assert : Bool → MessageErrorKind → MessageResult (Unit {0})
track_assert test kind = if test then ok tt else err kind

module _ (c : StunCodec) where
  -- The types of the unknown attributes that are comprehension-required, in order.
  unfoldable pub required_unknowns : List c.RawAttribute → List ℕ
  required_unknowns [] = []
  required_unknowns (a ∷ rest) =
      if c.is_comprehension_required (c.raw_get_type a)
      then c.raw_get_type a ∷ required_unknowns rest
      else required_unknowns rest

  unfoldable pub check_unknown_attributes : c.Message → MessageResult (Unit {0})
  check_unknown_attributes m =
      let required = required_unknowns (c.unknown_attributes m) in
      track_assert (is_empty required) (MessageErrorKind.unknown_attributes required)
