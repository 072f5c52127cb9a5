-- ===== src/Transport.antt =====
-- src/transport/mod.rs: the traits of the transport layer, and what the layer takes from the crates
-- fibers_transport and fibers_timeout_queue. The time of a call is an argument of it; all times and
-- durations are in nanoseconds.
pub mod Peer
pub mod Udp
pub mod Tcp
use rustun.Prelude.{
  ℕ, ◌+◌, ◌≤◌, ◌≡◌, Bool, true, Option, none, some, Async, Result, Op, Outcome, done, fail, panic,
  running, to_nat, ltb, leb, ◌&&◌,
}
use rustun.Codec.{StunCodec}
use rustun.Error.{ForeignErrorKind}

-- `fibers_transport::Transport` with `SendItem = Message<A>`, `RecvItem = DecodedMessage<A>`.
pub record Transport (c : StunCodec) (PeerAddr : Type 0) : Type 1 where
  pub State : Type 0
  pub start_send : ℕ → PeerAddr → c.Message → Op ForeignErrorKind State (Unit {0})
  pub poll_send : ℕ → Op ForeignErrorKind State (Async (Unit {0}))
  pub poll_recv :
      ℕ → Op ForeignErrorKind State (Async (Option (PeerAddr × Result c.Message c.BrokenMessage)))

-- `StunTransport`.
pub record StunTransport (c : StunCodec) (PeerAddr : Type 0) : Type 1 where
  pub transport : Transport c PeerAddr
  pub open transport use *
  pub finish_transaction : ℕ → PeerAddr → ℕ → Op ForeignErrorKind State (Unit {0})

-- The call returns: it neither panics nor runs out of rounds.
abbrev pub Returns {ℓ} : {E S A : Type ℓ} → Outcome E S A → Type 0
Returns (done a s) = Unit {0}
Returns (fail e s) = Unit {0}
Returns (panic p) = ⊥
Returns running = ⊥

-- The documented behaviour of a transport of that crate: its calls return.
pub record IsTransport {c : StunCodec} {P : Type 0} (t : Transport c P) : Type 0 where
  pub start_send-Returns :
      (now : ℕ) (peer : P) (m : c.Message) (s : t.State) → Returns (t.start_send now peer m s)
  pub poll_send-Returns : (now : ℕ) (s : t.State) → Returns (t.poll_send now s)
  pub poll_recv-Returns : (now : ℕ) (s : t.State) → Returns (t.poll_recv now s)

-- `fibers_timeout_queue::TimeoutQueue`: `push now entry duration`, and `filter_pop now keep`.
pub record TimeoutQueue (E : Type 0) : Type 1 where
  pub Queue : Type 0
  pub new : Queue
  pub push : ℕ → E → ℕ → Queue → Queue
  pub filter_pop : ℕ → (E → Bool) → Queue → Option E × Queue

-- How often an entry that passes the test `f` has just been popped.
abbrev pub popped : {E : Type 0} → (E → Bool) → Option E → ℕ
popped f none = 0
popped f (some e) = to_nat (f e)

-- The documented behaviour of the queue, seen as the number of its entries that pass a test: a push
-- adds one entry, an entry that is popped passes the filter, and only entries that the filter
-- refuses are dropped.
pub record IsTimeoutQueue {E : Type 0} (q : TimeoutQueue E) : Type 0 where
  pub count : (E → Bool) → q.Queue → ℕ
  pub count-new : (f : E → Bool) → count f q.new ≡ 0
  pub count-push :
      (f : E → Bool) (now : ℕ) (e : E) (d : ℕ) (s : q.Queue)
      → count f (q.push now e d s) ≡ to_nat (f e) + count f s
  pub filter_pop-keep :
      (keep : E → Bool) (now : ℕ) (s : q.Queue) (e : E)
      → (q.filter_pop now keep s).0 ≡ some e
      → keep e ≡ true
  pub count-filter_pop-le :
      (f keep : E → Bool) (now : ℕ) (s : q.Queue)
      → let (o, s') = q.filter_pop now keep s in popped f o + count f s' ≤ count f s
  pub count-filter_pop :
      (f keep : E → Bool) (now : ℕ) (s : q.Queue)
      → ((e : E) → f e ≡ true → keep e ≡ true)
      → let (o, s') = q.filter_pop now keep s in popped f o + count f s' ≡ count f s

-- The documented behaviour of the queue, seen with the times of its entries: how many of those that
-- pass a test fall due at a limit or before, and how many later. A push adds an entry that falls due
-- after its duration, and what is popped is due now; no other entry is added. If nothing is popped,
-- none that the filter keeps is due now.
pub record IsTimedQueue {E : Type 0} (q : TimeoutQueue E) : Type 0 where
  pub laws : IsTimeoutQueue q
  pub due : ℕ → (E → Bool) → q.Queue → ℕ
  pub later : ℕ → (E → Bool) → q.Queue → ℕ
  pub due-later :
      (limit : ℕ) (f : E → Bool) (s : q.Queue) → due limit f s + later limit f s ≡ laws.count f s
  pub due-push :
      (limit : ℕ) (f : E → Bool) (now : ℕ) (e : E) (d : ℕ) (s : q.Queue)
      → due limit f (q.push now e d s) ≡ to_nat (leb (now + d) limit && f e) + due limit f s
  pub later-push :
      (limit : ℕ) (f : E → Bool) (now : ℕ) (e : E) (d : ℕ) (s : q.Queue)
      → later limit f (q.push now e d s) ≡ to_nat (ltb limit (now + d) && f e) + later limit f s
  pub due-filter_pop :
      (limit : ℕ) (f keep : E → Bool) (now : ℕ) (s : q.Queue)
      → now ≤ limit
      → let (o, s') = q.filter_pop now keep s in popped f o + due limit f s' ≤ due limit f s
  pub later-filter_pop :
      (limit : ℕ) (f keep : E → Bool) (now : ℕ) (s : q.Queue)
      → later limit f (q.filter_pop now keep s).1 ≤ later limit f s
  pub filter_pop-none :
      (f keep : E → Bool) (now : ℕ) (s : q.Queue)
      → (q.filter_pop now keep s).0 ≡ none
      → ((e : E) → f e ≡ true → keep e ≡ true)
      → due now f (q.filter_pop now keep s).1 ≡ 0
