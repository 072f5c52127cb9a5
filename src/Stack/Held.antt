-- ===== src/Stack/Held.antt =====
-- A channel over UDP: the transporter holds only transactions that the channel has outstanding.
-- src/channel.rs and src/transport/udp.rs together.
use rustun.Prelude.{
  ℕ, suc, ◌≡◌, refl, Bool, true, false, not, ◌&&◌, some, ◌∷◌, err, Outcome, done, fail, panic,
  running, Keeps, Keeps-weaken, arith, subst, nat_beq, nat_partial_eq, Bool-cases, inl, inr,
  nat_beq_iff, if◌then◌else◌,
}
use rustun.Prelude.HashMap.{get, insert, remove, contains_key, get-remove, get-insert}
use rustun.Codec.{MessageClass, class_beq}
use rustun.Error.{ErrorKind, ForeignErrorKind, message_error_from_transport, error_from_transport}
use rustun.Message.Request
use rustun.Message.Request.{Request}
use rustun.Transport.Udp.{RetransmitTransporter}
use rustun.Transport.Udp.Send.{start_send, finish_transaction}
use rustun.Transport.Udp.Held.{GoodIn-weaken}
use rustun.Transport.Udp.Held.All.{
  HoldsIn, start_send-HoldsIn, start_send-HoldsIn_fail, finish_transaction-HoldsIn,
  poll_send-HoldsIn, poll_recv-HoldsIn,
}
use rustun.Channel.{Channel, Key, key_partial_eq, call, on_transport}
use rustun.Channel.Poll
use rustun.Channel.Steps.Polls.{on_transport-KeepsOn, poll_recv-Preserved}
use rustun.Channel.Steps.{Preserved}
use rustun.Stack.{UdpStack, udp_channel}

module _ (u : UdpStack) where
  open u use {udp}

  abbrev pub waits : Channel (udp_channel u) → ℕ → ℕ → Bool
  waits ch q i = contains_key ⦃e = key_partial_eq (udp_channel u)⦄ (q, i) ch.transactions

  -- Each transaction that the transporter holds is outstanding in the channel, and a request that is
  -- kept back is not of a transaction that the transporter has outstanding.
  abbrev pub Within : Channel (udp_channel u) → Type 0
  Within ch = HoldsIn udp (waits ch) ch.transporter

  HoldsIn-weaken :
      (b d : ℕ → ℕ → Bool) (t : RetransmitTransporter udp)
      → ((q i : ℕ) → b q i ≡ true → d q i ≡ true)
      → HoldsIn udp b t
      → HoldsIn udp d t
  HoldsIn-weaken b d t f h q i =
      GoodIn-weaken udp.codec i (b q i) (d q i) (get q t.peers) (f q i) (h q i)

  finish-Within :
      (now : ℕ) (k : Key (udp_channel u)) (ch : Channel (udp_channel u)) (d : ℕ → ℕ → Bool)
      → ((q i : ℕ) → (not (nat_beq k.0 q && nat_beq k.1 i) && waits ch q i) ≡ true → d q i ≡ true)
      → Within ch
      → Keeps (HoldsIn udp d) (finish_transaction udp now k.0 k.1 ch.transporter)
  finish-Within now k ch d f h =
      Keeps-weaken (finish_transaction udp now k.0 k.1 ch.transporter) (λ s. HoldsIn-weaken _ d s f)
        (finish_transaction-HoldsIn udp (waits ch) now k.0 k.1 ch.transporter h)

  Within-Preserved : Preserved (udp_channel u) Within
  Within-Preserved = record {
    receives = λ now ch h. poll_recv-HoldsIn udp (waits ch) now ch.transporter h;
    pops_none = λ now ch q e h. h;
    pops_unknown =
        λ now ch k q e absent h. finish-Within now k ch (waits ch) (λ q i. rest-waits k ch q i) h;
    times_out =
        λ now ch k q method tx e found h. finish-Within now k ch _ (λ q i. ended-waits k ch q i) h;
    ends =
        λ now ch k method tx x found y h. finish-Within now k ch _ (λ q i. ended-waits k ch q i) h;
  }
    where
      rest-waits :
          (k : Key (udp_channel u)) (ch : Channel (udp_channel u)) (q i : ℕ)
          → (not (nat_beq k.0 q && nat_beq k.1 i) && waits ch q i) ≡ true
          → waits ch q i ≡ true
      rest-waits k ch q i e = ground arith

      ended-waits :
          (k : Key (udp_channel u)) (ch : Channel (udp_channel u)) (q i : ℕ)
          → (not (nat_beq k.0 q && nat_beq k.1 i) && waits ch q i) ≡ true
          → contains_key ⦃e = key_partial_eq (udp_channel u)⦄
              (q, i)
              (remove ⦃e = key_partial_eq (udp_channel u)⦄ k ch.transactions)
            ≡ true
      ended-waits k ch q i e =
          ground
            (arith, e, get-remove ⦃e = key_partial_eq (udp_channel u)⦄ k (q, i) ch.transactions)

  sends-Within :
      (now peer : ℕ) (m : udp.codec.Message) (method : ℕ) (ch : Channel (udp_channel u))
      → let k : Key (udp_channel u) = (peer, udp.codec.transaction_id m) in
        contains_key ⦃e = key_partial_eq (udp_channel u)⦄ k ch.transactions ≡ false
        → Within ch
        → (o : Outcome ForeignErrorKind (RetransmitTransporter udp) (Unit {0}))
        → start_send udp now peer m ch.transporter ≡ o
        → Keeps {E = ErrorKind} {A = ℕ} Within (elim o [
          | fail e t ↦ done ch.next_handle (record ch {
            transporter = t;
            next_handle = suc ch.next_handle;
            exits = (ch.next_handle, err (some (message_error_from_transport e))) ∷ ch.exits;
          })
          | done _ t ↦ done ch.next_handle (record ch {
            transporter = t;
            next_handle = suc ch.next_handle;
            transactions =
                insert ⦃e = key_partial_eq (udp_channel u)⦄ k
                  (method, ch.next_handle)
                  ch.transactions;
            timeout_queue = u.timeouts.push now k ch.request_timeout ch.timeout_queue;
          })
          | panic x ↦ panic x
          | running ↦ running
        ])
  sends-Within now peer m method ch f h (fail e t) r =
      start_send-HoldsIn_fail udp (waits ch) now peer m ch.transporter t e r h
  sends-Within now peer m method ch f h (done x t) r = subst (Keeps (HoldsIn udp d)) r (
      start_send-HoldsIn udp (waits ch) d now peer m ch.transporter
        (λ q i e. ground (arith, e, got q i))
        (λ c. (
          f,
          ground (
            arith,
            got peer (udp.codec.transaction_id m),
            nat_beq_iff peer peer,
            nat_beq_iff (udp.codec.transaction_id m) (udp.codec.transaction_id m),
          ),
        ))
        h)
    where
      d : ℕ → ℕ → Bool
      d q i =
          contains_key ⦃e = key_partial_eq (udp_channel u)⦄ (q, i)
            (insert ⦃e = key_partial_eq (udp_channel u)⦄ (peer, udp.codec.transaction_id m)
              (method, ch.next_handle) ch.transactions)

      got :
          (q i : ℕ)
          → get ⦃e = key_partial_eq (udp_channel u)⦄
              (q, i)
              (insert ⦃e = key_partial_eq (udp_channel u)⦄
                (peer, udp.codec.transaction_id m)
                (method, ch.next_handle)
                ch.transactions)
            ≡ (if nat_beq peer q && nat_beq (udp.codec.transaction_id m) i
                then some (method, ch.next_handle)
                else get ⦃e = key_partial_eq (udp_channel u)⦄ (q, i) ch.transactions)
      got q i =
          get-insert ⦃e = key_partial_eq (udp_channel u)⦄ (peer, udp.codec.transaction_id m) (q, i)
            (method, ch.next_handle) ch.transactions
  sends-Within now peer m method ch f h (panic x) r = tt
  sends-Within now peer m method ch f h running r = tt

  pub call-Within :
      (now peer : ℕ) (request : Request udp.codec) (ch : Channel (udp_channel u))
      → Within ch
      → Keeps Within (call (udp_channel u) now peer request ch)
  unfolding call Request.transaction_id Request.method Request.into_message
  call-Within now peer request ch h =
      elim (Bool-cases (waits ch peer (udp.codec.transaction_id request.message))) [
        | inl e ↦ rw (Keeps, e) h
        | inr e ↦
            rw (Keeps, e)
              (sends-Within now peer request.message (udp.codec.method request.message) ch e h
                (start_send udp now peer request.message ch.transporter) refl)
      ]

  -- A message that is not a request.
  pub start_send-Within :
      {E : Type 0} (convert : ForeignErrorKind → E) (now peer : ℕ) (m : udp.codec.Message)
      (ch : Channel (udp_channel u))
      → class_beq (udp.codec.class m) MessageClass.request ≡ false
      → Within ch
      → Keeps Within (on_transport (udp_channel u) convert (start_send udp now peer m) ch)
  start_send-Within convert now peer m ch c h =
      on_transport-KeepsOn (udp_channel u) Within convert (start_send udp now peer m) ch (
        start_send-HoldsIn udp (waits ch) (waits ch) now peer m ch.transporter (λ q i e. e)
          (λ e. absurd (ground (arith, e, c))) h)

  pub poll_send-Within :
      (now : ℕ) (ch : Channel (udp_channel u))
      → Within ch
      → Keeps Within (Poll.poll_send (udp_channel u) now ch)
  unfolding Poll.poll_send
  poll_send-Within now ch h =
      on_transport-KeepsOn (udp_channel u) Within error_from_transport
        ((udp_channel u).transport.poll_send now) ch
        (poll_send-HoldsIn udp (waits ch) u.rounds now ch.transporter h)

  pub poll_recv-Within :
      (rounds now : ℕ) (ch : Channel (udp_channel u))
      → Within ch
      → Keeps Within (Poll.poll_recv (udp_channel u) rounds now ch)
  poll_recv-Within = poll_recv-Preserved (udp_channel u) Within Within-Preserved
