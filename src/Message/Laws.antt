-- ===== src/Message/Laws.antt =====
-- Which messages the four `from_message` accept, and that a message made by `new` is accepted:
-- src/message.rs.
use rustun.Prelude.{
  subst, ℕ, ◌≡◌, refl, ◌≢◌, ◌↔◌, ◌⊎◌, inl, inr, Bool, true, false, List, [], ◌∷◌, ◌++◌, map, any,
  ok, err, arith, nat_beq, Bool-cases, is_empty,
}
use rustun.Codec.{StunCodec, MessageClass, class_beq}
use rustun.Error.{MessageErrorKind}
use rustun.Message.{
  ◌>>◌, ◌>>=◌, track_assert, MessageResult, required_unknowns, check_unknown_attributes,
}
use rustun.Message.Request
use rustun.Message.Request.{Request}
use rustun.Message.Indication
use rustun.Message.Indication.{Indication}
use rustun.Message.SuccessResponse
use rustun.Message.SuccessResponse.{SuccessResponse}
use rustun.Message.ErrorResponse
use rustun.Message.ErrorResponse.{ErrorResponse, contains_error_code}

pub class_beq_iff : (j k : MessageClass) → (class_beq j k ≡ true) ↔ (j ≡ k)
class_beq_iff MessageClass.request k = ground arith
class_beq_iff MessageClass.indication k = ground arith
class_beq_iff MessageClass.success_response k = ground arith
class_beq_iff MessageClass.error_response k = ground arith

abbrev pub All {ℓ} : {A : Type ℓ} → (A → Type 0) → List A → Type 0
All P [] = Unit {0}
All P (x ∷ xs) = P x × All P xs

abbrev pub Any {ℓ} : {A : Type ℓ} → (A → Type 0) → List A → Type 0
Any P [] = ⊥
Any P (x ∷ xs) = P x ⊎ Any P xs

module _ {A : Type 0} (f : A → ℕ) (n : ℕ) where
  any-map : (xs : List A) → (any (λ t. nat_beq t n) (map f xs) ≡ true) ↔ Any (λ a. f a ≡ n) xs
  any-map [] = ground arith
  any-map (x ∷ xs) = ground (arith, any-map xs)

  any-append :
      (xs : List A) (ys : List ℕ)
      → (any (λ t. nat_beq t n) (map f xs ++ ys) ≡ true)
        ↔ (Any (λ a. f a ≡ n) xs ⊎ (any (λ t. nat_beq t n) ys ≡ true))
  any-append [] ys = ground arith
  any-append (x ∷ xs) ys = ground (arith, any-append xs ys)

-- The message inside an accepted value.
abbrev pub accepted : {A M : Type 0} → (A → M) → MessageResult A → MessageResult M
accepted f (ok a) = ok (f a)
accepted f (err e) = err e

module _ (c : StunCodec) where
  abbrev pub IsRequired : ℕ → Type 0
  IsRequired t = c.is_comprehension_required t ≡ true

  abbrev pub NotRequired : c.RawAttribute → Type 0
  NotRequired a = c.is_comprehension_required (c.raw_get_type a) ≡ false

  -- The types of the comprehension-required attributes of a list, each as often as it stands there, in
  -- order.
  pub data RequiredTypes : List c.RawAttribute → List ℕ → Type 0 where
    no_more : RequiredTypes [] []
    skips :
        {l : List c.RawAttribute} {ts : List ℕ} (a : c.RawAttribute)
        → NotRequired a
        → RequiredTypes l ts
        → RequiredTypes (a ∷ l) ts
    names :
        {l : List c.RawAttribute} {ts : List ℕ} (a : c.RawAttribute)
        → IsRequired (c.raw_get_type a)
        → RequiredTypes l ts
        → RequiredTypes (a ∷ l) (c.raw_get_type a ∷ ts)

  -- What the documentation of `from_message` says of a message of the class `k`: another class is an
  -- `InvalidInput`, a comprehension-required unknown attribute is an `UnknownAttributes`, here with
  -- the types of all such attributes of the message and no others, and else the message is accepted
  -- as it is.
  pub data Judged (k : MessageClass) (m : c.Message) : MessageResult c.Message → Type 0 where
    wrong_class : c.class m ≢ k → Judged k m (err MessageErrorKind.invalid_input)
    unknown :
        c.class m ≡ k
        → (t : ℕ) (ts : List ℕ) → RequiredTypes (c.unknown_attributes m) (t ∷ ts)
        → Judged k m (err (MessageErrorKind.unknown_attributes (t ∷ ts)))
    accepts : c.class m ≡ k → All NotRequired (c.unknown_attributes m) → Judged k m (ok m)

  required_unknowns-RequiredTypes :
      (l : List c.RawAttribute) → RequiredTypes l (required_unknowns c l)
  unfolding required_unknowns
  required_unknowns-RequiredTypes [] = no_more
  required_unknowns-RequiredTypes (a ∷ l) =
      elim (Bool-cases (c.is_comprehension_required (c.raw_get_type a))) [
        | inl e ↦ rw e (names a e (required_unknowns-RequiredTypes l))
        | inr e ↦ rw e (skips a e (required_unknowns-RequiredTypes l))
      ]

  RequiredTypes-none : (l : List c.RawAttribute) → RequiredTypes l [] → All NotRequired l
  RequiredTypes-none [] no_more = tt
  RequiredTypes-none (_ ∷ l) (skips a e h) = (e, RequiredTypes-none l h)

  -- The two tests that all `from_message` begin with.
  abbrev judge : MessageClass → c.Message → MessageResult c.Message
  judge k m =
      accepted (λ _. m)
        (do
          track_assert (class_beq (c.class m) k) MessageErrorKind.invalid_input
          check_unknown_attributes c m)

  judge_class :
      (k : MessageClass) (m : c.Message) (l : List ℕ)
      → c.class m ≡ k
      → RequiredTypes (c.unknown_attributes m) l
      → Judged k m
          (accepted (λ _. m) (track_assert (is_empty l) (MessageErrorKind.unknown_attributes l)))
  judge_class k m [] h r = accepts h (RequiredTypes-none (c.unknown_attributes m) r)
  judge_class k m (t ∷ ts) h r = unknown h t ts r

  judge-Judged : (k : MessageClass) (m : c.Message) → Judged k m (judge k m)
  unfolding check_unknown_attributes
  judge-Judged k m = elim (Bool-cases (class_beq (c.class m) k)) [
    | inl e ↦ rw e (
        judge_class k m (required_unknowns c (c.unknown_attributes m))
          ((class_beq_iff (c.class m) k).0 e)
          (required_unknowns-RequiredTypes (c.unknown_attributes m)))
    | inr e ↦ rw e (wrong_class (λ h. cc (e, (class_beq_iff (c.class m) k).1 h)))
  ]

  -- `Request::from_message`, `Indication::from_message` and `SuccessResponse::from_message` do what
  -- their documentation says, on every message; an `UnknownAttributes` error has the types of all
  -- comprehension-required unknown attributes of the message, in order, and no others.
  pub from_message-Judged :
      (m : c.Message)
      → Judged MessageClass.request m (accepted (λ r. r.message) (Request.from_message c m))
        × Judged MessageClass.indication m (accepted (λ r. r.message) (Indication.from_message c m))
        × Judged MessageClass.success_response m
            (accepted (λ r. r.message) (SuccessResponse.from_message c m))
  unfolding Request.from_message Indication.from_message SuccessResponse.from_message
  from_message-Judged m = (
    subst (Judged MessageClass.request m) (ground arith) (judge-Judged MessageClass.request m),
    subst (Judged MessageClass.indication m) (ground arith)
        (judge-Judged MessageClass.indication m),
    subst (Judged MessageClass.success_response m) (ground arith)
        (judge-Judged MessageClass.success_response m),
  )

  -- An attribute of the type `ERROR-CODE` is there, among the known or the unknown ones.
  abbrev pub HasErrorCode : c.Message → Type 0
  HasErrorCode m =
      Any (λ a. c.get_type a ≡ c.error_code_codepoint) (c.attributes m)
      ⊎ Any (λ a. c.raw_get_type a ≡ c.error_code_codepoint) (c.unknown_attributes m)

  contains_error_code_iff : (m : c.Message) → (contains_error_code c m ≡ true) ↔ HasErrorCode m
  unfolding contains_error_code
  contains_error_code_iff m =
      let known = any-append c.get_type c.error_code_codepoint (c.attributes m) in
      let unknown = any-map c.raw_get_type c.error_code_codepoint (c.unknown_attributes m) in
      ground (arith, known (map c.raw_get_type (c.unknown_attributes m)), unknown)

  -- What the documentation of `ErrorResponse::from_message` says of a message, but that the errors are
  -- of the type `MessageErrorKind`, where it has `ErrorKind`.
  pub data JudgedError (m : c.Message) : MessageResult c.Message → Type 0 where
    refused :
        (e : MessageErrorKind)
        → Judged MessageClass.error_response m (err e)
        → JudgedError m (err e)
    no_error_code :
        Judged MessageClass.error_response m (ok m)
        → ¬ HasErrorCode m
        → JudgedError m (err MessageErrorKind.invalid_input)
    accepts_error :
        Judged MessageClass.error_response m (ok m) → HasErrorCode m → JudgedError m (ok m)

  judged_error :
      (m : c.Message) (r : MessageResult c.Message) (b : Bool)
      → (r ≡ ok m) ⊎ ((e : MessageErrorKind) × (r ≡ err e))
      → contains_error_code c m ≡ b
      → Judged MessageClass.error_response m r
      → JudgedError m (r >>= λ _. track_assert b MessageErrorKind.invalid_input >>= λ _. ok m)
  judged_error m r true (inl e) h j =
      rw e (accepts_error (rw e at j) ((contains_error_code_iff m).0 h))
  judged_error m r false (inl e) h j =
      rw e (no_error_code (rw e at j) (λ has. cc (h, (contains_error_code_iff m).1 has)))
  judged_error m r b (inr (x, e)) h j = rw e (refused x (rw e at j))

  judge_cases :
      (k : MessageClass) (m : c.Message)
      → (judge k m ≡ ok m) ⊎ ((e : MessageErrorKind) × (judge k m ≡ err e))
  judge_cases k m = elim (Bool-cases (class_beq (c.class m) k)) [
    | inr e ↦ inr (MessageErrorKind.invalid_input, rw e)
    | inl e ↦
        rw e
          (elim (check_unknown_attributes c m)
            as (λ r.
              (accepted (λ _. m) r ≡ ok m)
              ⊎ ((x : MessageErrorKind) × (accepted (λ _. m) r ≡ err x))) [
                | ok _ ↦ inl refl
                | err x ↦ inr (x, refl)
              ])
  ]

  -- `ErrorResponse::from_message`, on every message: another class is an `InvalidInput`, else
  -- comprehension-required unknown attributes are an `UnknownAttributes` with all of their types, in
  -- order, and no others, else a message without an attribute of the type of `ErrorCode`, known or
  -- unknown, is an `InvalidInput`, and any other is accepted as it is. The errors are of the type
  -- `MessageErrorKind`, where its documentation names `ErrorKind`.
  pub from_message-JudgedError :
      (m : c.Message) → JudgedError m (accepted (λ r. r.message) (ErrorResponse.from_message c m))
  unfolding ErrorResponse.from_message
  from_message-JudgedError m =
      let k = MessageClass.error_response in
      subst (JudgedError m) (ground arith) (
        judged_error m (judge k m) (contains_error_code c m) (judge_cases k m) refl
          (judge-Judged k m))
