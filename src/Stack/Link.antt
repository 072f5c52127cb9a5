-- ===== src/Stack/Link.antt =====
-- A transport that loses nothing, seen with what has arrived at it and what it has sent: what the
-- network tests of src/lib.rs rely on.
pub mod Polls
pub mod Tcp
pub mod Udp
use rustun.Prelude.{
  ℕ, ◌≤◌, ◌≡◌, ◌≢◌, some, List, [], ◌∷◌, ◌++◌, Result, Op, done, Async, ready, not_ready,
}
use rustun.Codec.{StunCodec, MessageClass}
use rustun.Error.{ForeignErrorKind}
use rustun.Transport.{Transport, StunTransport}

-- What a transport receives.
abbrev pub Item : StunCodec → Type 0 → Type 0
Item c P = P × Result c.Message c.BrokenMessage

-- A transport of fibers_transport on a network that loses nothing: `arrived` is what waits to be
-- received, `sent` what has been sent, in order, and `arrive` is the network that delivers a message.
pub record Net {c : StunCodec} {P : Type 0} (t : Transport c P) : Type 0 where
  pub arrived : t.State → List (Item c P)
  pub sent : t.State → List (P × c.Message)
  pub arrive : Item c P → t.State → t.State

module _ {c : StunCodec} {P : Type 0} (t : Transport c P) (n : Net t) where
  open n use {arrived, sent}

  -- The call returns `a`, in a state with the messages `xs` and `ys`.
  abbrev pub Yields :
      {A : Type 0}
      → A
      → List (Item c P)
      → List (P × c.Message)
      → Op ForeignErrorKind t.State A
      → t.State
      → Type 0
  Yields a xs ys m s = (s' : t.State) × (m s ≡ done a s') × (arrived s' ≡ xs) × (sent s' ≡ ys)

  -- Each call does what it is meant to.
  pub record IsNet : Type 0 where
    pub start_send :
        (now : ℕ) (peer : P) (m : c.Message) (s : t.State)
        → Yields tt (arrived s) (sent s ++ (peer, m) ∷ []) (t.start_send now peer m) s
    pub poll_send :
        (now : ℕ) (s : t.State)
        → (a : Async (Unit {0})) × Yields a (arrived s) (sent s) (t.poll_send now) s
    pub recv_none :
        (now : ℕ) (s : t.State) → arrived s ≡ [] → Yields not_ready [] (sent s) (t.poll_recv now) s
    pub recv_some :
        (now : ℕ) (x : Item c P) (xs : List (Item c P)) (s : t.State)
        → arrived s ≡ x ∷ xs
        → Yields (ready (some x)) xs (sent s) (t.poll_recv now) s
    pub arrived-arrive : (x : Item c P) (s : t.State) → arrived (n.arrive x s) ≡ arrived s ++ x ∷ []
    pub sent-arrive : (x : Item c P) (s : t.State) → sent (n.arrive x s) ≡ sent s

module _ {c : StunCodec} {P : Type 0} (t : StunTransport c P) where
  open t use {State}

  -- The same of a transport for STUN, which may send again what it has sent. In a state that is `Fresh`
  -- at a time, a request is sent at once. In one that is `Calm` up to a time, nothing is sent again up
  -- to that time. `Quiet` says up to which time that is so after a request that was sent at a time.
  -- `Knows` says which peers it has to do with.
  pub record Link : Type 1 where
    pub arrived : State → List (Item c P)
    pub sent : State → List (P × c.Message)
    pub arrive : Item c P → State → State
    pub Knows : P → Type 0
    pub Quiet : ℕ → ℕ → State → Type 0
    pub Fresh : ℕ → State → Type 0
    pub Calm : ℕ → State → Type 0

  module _ (l : Link) where
    open l use {arrived, sent, Calm}

    -- The call returns `a`, in a state with the messages `xs` and `ys` that is calm up to `limit`.
    abbrev pub Gives :
        {A : Type 0}
        → ℕ
        → A
        → List (Item c P)
        → List (P × c.Message)
        → Op ForeignErrorKind State A
        → State
        → Type 0
    Gives limit a xs ys m s =
        (s' : State) × (m s ≡ done a s') × (arrived s' ≡ xs) × (sent s' ≡ ys) × Calm limit s'

    -- Nothing is lost, and each call does what it is meant to.
    pub record IsLink : Type 0 where
      pub Fresh-Calm : (now limit : ℕ) (s : State) → l.Fresh now s → Calm limit s
      pub send_request :
          (now limit : ℕ) (peer : P) (m : c.Message) (s : State)
          → l.Knows peer
          → c.class m ≡ MessageClass.request
          → l.Fresh now s
          → l.Quiet now limit s
          → Gives limit tt (arrived s) (sent s ++ (peer, m) ∷ []) (t.start_send now peer m) s
      pub send_other :
          (now limit : ℕ) (peer : P) (m : c.Message) (s : State)
          → l.Knows peer
          → c.class m ≢ MessageClass.request
          → now ≤ limit
          → Calm limit s
          → Gives limit tt (arrived s) (sent s ++ (peer, m) ∷ []) (t.start_send now peer m) s
      pub poll_send :
          (now limit : ℕ) (s : State)
          → now ≤ limit
          → Calm limit s
          → (a : Async (Unit {0})) × Gives limit a (arrived s) (sent s) (t.poll_send now) s
      pub recv_none :
          (now limit : ℕ) (s : State)
          → arrived s ≡ []
          → now ≤ limit
          → Calm limit s
          → Gives limit not_ready [] (sent s) (t.poll_recv now) s
      pub recv_some :
          (now limit : ℕ) (x : Item c P) (xs : List (Item c P)) (s : State)
          → arrived s ≡ x ∷ xs
          → now ≤ limit
          → Calm limit s
          → Gives limit (ready (some x)) xs (sent s) (t.poll_recv now) s
      pub finish :
          (now limit : ℕ) (peer : P) (id : ℕ) (s : State)
          → now ≤ limit
          → Calm limit s
          → Gives limit tt (arrived s) (sent s) (t.finish_transaction now peer id) s
      pub arrived-arrive :
          (limit : ℕ) (x : Item c P) (s : State)
          → l.Knows x.0
          → Calm limit s
          → arrived (l.arrive x s) ≡ arrived s ++ x ∷ []
      pub sent-arrive : (x : Item c P) (s : State) → sent (l.arrive x s) ≡ sent s
      pub Calm-arrive :
          (limit : ℕ) (x : Item c P) (s : State) → Calm limit s → Calm limit (l.arrive x s)
