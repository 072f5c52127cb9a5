-- ===== src/Examples/Toy.antt =====
-- A codec, a transport and a timeout queue that satisfy what the model assumes of them.
use rustun.Prelude.{
  ℕ, ◌+◌, ◌≤◌, ◌≡◌, refl, Bool, true, false, Option, none, some, List, [], ◌∷◌, ◌++◌, done, ready,
  not_ready, if◌then◌else◌, leb, ltb, ◌&&◌, to_nat, arith, find_map,
}
use rustun.Codec.{StunCodec, IsStunCodec, MessageClass}
use rustun.Transport.{Transport, IsTransport, TimeoutQueue, IsTimeoutQueue, IsTimedQueue, popped}

-- An attribute is its type; types below 0x8000 are comprehension-required.
pub record ToyMessage : Type 0 where
  pub class : MessageClass
  pub method : ℕ
  pub transaction_id : ℕ
  pub attributes : List ℕ
  pub unknown_attributes : List ℕ

abbrev pub toy_codec : StunCodec
toy_codec = record {
  Message = ToyMessage;
  Attribute = ℕ;
  RawAttribute = ℕ;
  BrokenMessage = ToyMessage;
  ErrorCode = Unit {0};
  new = λ k m i. record {
    class = k;
    method = m;
    transaction_id = i;
    attributes = [];
    unknown_attributes = [];
  };
  class = λ m. m.class;
  method = λ m. m.method;
  transaction_id = λ m. m.transaction_id;
  attributes = λ m. m.attributes;
  unknown_attributes = λ m. m.unknown_attributes;
  add_attribute = λ m a. record m { attributes = m.attributes ++ a ∷ [] };
  get_attribute = λ T f m. find_map f m.attributes;
  get_type = λ a. a;
  raw_get_type = λ a. a;
  is_comprehension_required = λ t. if leb 0x8000 t then false else true;
  error_code_codepoint = 9;
  from_error_code = λ e. 9;
  broken_class = λ m. m.class;
  broken_method = λ m. m.method;
  broken_transaction_id = λ m. m.transaction_id;
}

abbrev pub toy_codec_laws : IsStunCodec toy_codec
toy_codec_laws = record {
  class-new = λ k m i. refl;
  method-new = λ k m i. refl;
  transaction_id-new = λ k m i. refl;
  attributes-new = λ k m i. refl;
  unknown_attributes-new = λ k m i. refl;
  class-add_attribute = λ m a. refl;
  method-add_attribute = λ m a. refl;
  transaction_id-add_attribute = λ m a. refl;
  attributes-add_attribute = λ m a. refl;
  unknown_attributes-add_attribute = λ m a. refl;
  get_attribute-attributes = λ T f m. refl;
  get_type-from_error_code = λ e. refl;
}

-- A transport that notes what is sent, the latest first, and receives nothing.
abbrev pub log_transport : Transport toy_codec ℕ
log_transport = record {
  State = List (ℕ × ToyMessage);
  start_send = λ now peer m s. done tt ((peer, m) ∷ s);
  poll_send = λ now s. done (ready tt) s;
  poll_recv = λ now s. done not_ready s;
}

abbrev pub log_transport_laws : IsTransport log_transport
log_transport_laws = record {
  start_send-Returns = λ now peer m s. tt;
  poll_send-Returns = λ now s. tt;
  poll_recv-Returns = λ now s. tt;
}

-- A timeout queue as a list of entries with their times.
module _ {E : Type 0} where
  abbrev pub pop_list : ℕ → (E → Bool) → List (ℕ × E) → Option E × List (ℕ × E)
  pop_list now keep [] = (none, [])
  pop_list now keep ((due, e) ∷ q) =
      let rest = pop_list now keep q in
      if keep e then (if leb due now then (some e, q) else (rest.0, (due, e) ∷ rest.1)) else rest

  abbrev pub count_list : (E → Bool) → List (ℕ × E) → ℕ
  count_list f [] = 0
  count_list f ((due, e) ∷ q) = to_nat (f e) + count_list f q

  pub pop_list-keep :
      (keep : E → Bool) (now : ℕ) (q : List (ℕ × E)) (e : E)
      → (pop_list now keep q).0 ≡ some e
      → keep e ≡ true
  pop_list-keep keep now [] e h = ground arith
  pop_list-keep keep now ((due, x) ∷ q) e h = ground (arith, pop_list-keep keep now q e)

  pub count-pop_list-le :
      (f keep : E → Bool) (now : ℕ) (q : List (ℕ × E))
      → let (o, q') = pop_list now keep q in popped f o + count_list f q' ≤ count_list f q
  count-pop_list-le f keep now [] = ground arith
  count-pop_list-le f keep now ((due, x) ∷ q) = ground (arith, count-pop_list-le f keep now q)

  pub count-pop_list :
      (f keep : E → Bool) (now : ℕ) (q : List (ℕ × E))
      → ((e : E) → f e ≡ true → keep e ≡ true)
      → let (o, q') = pop_list now keep q in popped f o + count_list f q' ≡ count_list f q
  count-pop_list f keep now [] h = ground arith
  count-pop_list f keep now ((due, x) ∷ q) h = ground (arith, h x, count-pop_list f keep now q h)

module _ {E : Type 0} (limit : ℕ) (f : E → Bool) where
  abbrev pub due_list : List (ℕ × E) → ℕ
  due_list [] = 0
  due_list ((due, e) ∷ q) = to_nat (leb due limit && f e) + due_list q

  abbrev pub later_list : List (ℕ × E) → ℕ
  later_list [] = 0
  later_list ((due, e) ∷ q) = to_nat (ltb limit due && f e) + later_list q

  pub due-later_list : (q : List (ℕ × E)) → due_list q + later_list q ≡ count_list f q
  due-later_list [] = refl
  due-later_list ((due, e) ∷ q) = ground (arith, due-later_list q)

  pub later-pop_list :
      (keep : E → Bool) (now : ℕ) (q : List (ℕ × E))
      → later_list (pop_list now keep q).1 ≤ later_list q
  later-pop_list keep now [] = ground arith
  later-pop_list keep now ((due, e) ∷ q) = ground (arith, later-pop_list keep now q)

module _ {E : Type 0} (f keep : E → Bool) (now : ℕ) where
  pub due-pop_list :
      (limit : ℕ) (q : List (ℕ × E))
      → now ≤ limit
      → let (o, q') = pop_list now keep q in popped f o + due_list limit f q' ≤ due_list limit f q
  due-pop_list limit [] h = ground arith
  due-pop_list limit ((due, e) ∷ q) h = ground (arith, due-pop_list limit q h)

  pub pop_list-none :
      (q : List (ℕ × E))
      → (pop_list now keep q).0 ≡ none
      → ((e : E) → f e ≡ true → keep e ≡ true)
      → due_list now f (pop_list now keep q).1 ≡ 0
  pop_list-none [] h k = refl
  pop_list-none ((due, e) ∷ q) h k = ground (arith, k e, pop_list-none q)

abbrev pub list_queue : (E : Type 0) → TimeoutQueue E
list_queue E = record {
  Queue = List (ℕ × E);
  new = [];
  push = λ now e d q. (now + d, e) ∷ q;
  filter_pop = pop_list;
}

abbrev pub list_queue_laws : (E : Type 0) → IsTimeoutQueue (list_queue E)
list_queue_laws E = record {
  count = count_list;
  count-new = λ f. refl;
  count-push = λ f now e d q. refl;
  filter_pop-keep = pop_list-keep;
  count-filter_pop-le = count-pop_list-le;
  count-filter_pop = count-pop_list;
}

abbrev pub list_queue_timed : (E : Type 0) → IsTimedQueue (list_queue E)
list_queue_timed E = record {
  laws = list_queue_laws E;
  due = due_list;
  later = later_list;
  due-later = due-later_list;
  due-push = λ limit f now e d q. refl;
  later-push = λ limit f now e d q. refl;
  due-filter_pop = λ limit f keep now. due-pop_list f keep now limit;
  later-filter_pop = later-pop_list;
  filter_pop-none = pop_list-none;
}
