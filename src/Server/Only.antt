-- ===== src/Server/Only.antt =====
-- What a server with `BindingHandler` ever sends: src/server.rs, `HandlerDriver::poll`. What is asked
-- of the transport, and what a poll of the channel keeps.
pub mod Receives
pub mod Calls
pub mod Polls
pub mod Senders
use rustun.Prelude.{
  ℕ, ◌≡◌, ◌≢◌, ◌⊎◌, Option, none, some, List, [], ◌∷◌, Result, ok, Outcome, done, fail, panic,
  running, Async, ready, not_ready, Keeps, Keeps-weaken, subst, sym,
}
use rustun.Error.{ForeignErrorKind}
use rustun.Codec.{StunCodec, IsStunCodec, MessageClass}
use rustun.Message.Request.{Request}
use rustun.Message.SuccessResponse
use rustun.Message.ErrorResponse
use rustun.Message.ErrorResponse.{Response}
use rustun.Message.Laws.{Any}
use rustun.Transport.{Transport, StunTransport}
use rustun.Channel
use rustun.Channel.{ChannelEnv, response_message}
use rustun.Channel.Poll
use rustun.Channel.Receive.{request}
use rustun.Channel.Steps.{Preserved}
use rustun.Server.{HandlerDriver, reply}
use rustun.Server.Binding.{Rfc5389}
use rustun.Server.Answers.{binding_server, Answers}

-- What happens at a transport: a message is received from a peer, or sent to one.
pub data Event (c : StunCodec) (P : Type 0) : Type 0 where
  got : P × Result c.Message c.BrokenMessage → Event c P
  sent : P × c.Message → Event c P

abbrev pub Log : StunCodec → Type 0 → Type 0
Log c P = List (Event c P)

-- What a call for messages returns, and the state after it: a message that is returned is in the log,
-- which `HasLog` reads, and nothing else is new.
abbrev pub Logs :
    {c : StunCodec} {P S : Type 0}
    → (Log c P → S → Type 0)
    → Log c P
    → Outcome ForeignErrorKind S (Async (Option (P × Result c.Message c.BrokenMessage)))
    → Type 0
Logs HasLog l (done (ready (some i)) x) = HasLog (got i ∷ l) x
Logs HasLog l (done (ready none) x) = HasLog l x
Logs HasLog l (done not_ready x) = HasLog l x
Logs HasLog l (fail e x) = HasLog l x
Logs HasLog l (panic e) = Unit {0}
Logs HasLog l running = Unit {0}

-- A transport of fibers_transport, seen with the log of all that has happened, the latest first: a
-- message that is given to it is sent or is not, and nothing else is, whether a call fails or not.
pub record Posts {c : StunCodec} {P : Type 0} (t : Transport c P) : Type 0 where
  pub log : t.State → Log c P
  pub start_send :
      (now : ℕ) (peer : P) (m : c.Message) (x : t.State)
      → Keeps
          (λ x'. (log x' ≡ log x) ⊎ (log x' ≡ sent (peer, m) ∷ log x))
          (t.start_send now peer m x)
  pub poll_send : (now : ℕ) (x : t.State) → Keeps (λ x'. log x' ≡ log x) (t.poll_send now x)
  pub poll_recv : (now : ℕ) (x : t.State) → Logs (λ l x'. log x' ≡ l) (log x) (t.poll_recv now x)

-- The same of a transport for STUN. In a `Silent` state it sends nothing of its own accord, which only
-- a request changes.
pub record Sender {c : StunCodec} {P : Type 0} (t : StunTransport c P) : Type 1 where
  pub log : t.State → Log c P
  pub Silent : t.State → Type 0

module _ {c : StunCodec} {P : Type 0} (t : StunTransport c P) (s : Sender t) where
  open s use {log, Silent}

  -- The state is silent and has the log.
  abbrev pub HasLog : Log c P → t.State → Type 0
  HasLog l x = Silent x × (log x ≡ l)

  pub record IsSender : Type 0 where
    pub sends :
        (now : ℕ) (peer : P) (m : c.Message) (x : t.State)
        → c.class m ≢ MessageClass.request
        → Silent x
        → Keeps
            (λ x'. HasLog (log x) x' ⊎ HasLog (sent (peer, m) ∷ log x) x')
            (t.start_send now peer m x)
    pub polls_send : (now : ℕ) (x : t.State) → Silent x → Keeps (HasLog (log x)) (t.poll_send now x)
    pub polls_recv : (now : ℕ) (x : t.State) → Silent x → Logs HasLog (log x) (t.poll_recv now x)
    pub finishes :
        (now : ℕ) (peer : P) (id : ℕ) (x : t.State)
        → Silent x
        → Keeps (HasLog (log x)) (t.finish_transaction now peer id x)

module _ (env : ChannelEnv) (laws : IsStunCodec env.codec) (Future : Type 0)
    (rfc : Rfc5389 env.codec env.PeerAddr) (s : Sender env.transport)
    (sender : IsSender env.transport s) where
  open env use {codec, PeerAddr}
  open s use {log, Silent}

  -- A request of the peer has been received.
  abbrev pub Asked : Log codec PeerAddr → PeerAddr → Request codec → Type 0
  Asked l peer r = Any (λ e. e ≡ got (peer, ok r.message)) l

  -- Each message that was sent is an answer of `BindingHandler` to a request that had been received
  -- from the peer that it went to.
  abbrev pub OnlyAnswers : Log codec PeerAddr → Type 0
  OnlyAnswers [] = Unit {0}
  OnlyAnswers (got i ∷ l) = OnlyAnswers l
  OnlyAnswers (sent (peer, m) ∷ l) =
      ((r : Request codec) × (x : Response codec) × Asked l peer r
        × (m ≡ response_message env x)
        × Answers codec laws Future rfc peer r (reply x))
      × OnlyAnswers l

  abbrev pub OnlyOn : env.transport.State → Type 0
  OnlyOn t = Silent t × OnlyAnswers (log t)

  -- All that the server has sent are such answers, and no other response waits to be sent.
  abbrev pub Only : HandlerDriver (binding_server env Future rfc) → Type 0
  Only d = OnlyOn d.channel.transporter × (d.response_rx ≡ [])

  pub HasLog-OnlyOn :
      (l : Log codec PeerAddr) (t : env.transport.State)
      → OnlyAnswers l
      → HasLog env.transport s l t
      → OnlyOn t
  HasLog-OnlyOn l t h (q, e) = (q, subst OnlyAnswers (sym e) h)

  received-OnlyOn :
      (l : Log codec PeerAddr)
      (o : Outcome ForeignErrorKind env.transport.State
        (Async (Option (PeerAddr × Result codec.Message codec.BrokenMessage))))
      → OnlyAnswers l
      → Logs (HasLog env.transport s) l o
      → Keeps OnlyOn o
  received-OnlyOn l (done (ready (some i)) t) h k = HasLog-OnlyOn (got i ∷ l) t h k
  received-OnlyOn l (done (ready none) t) h k = HasLog-OnlyOn l t h k
  received-OnlyOn l (done not_ready t) h k = HasLog-OnlyOn l t h k
  received-OnlyOn l (fail e t) h k = HasLog-OnlyOn l t h k
  received-OnlyOn l (panic x) h k = tt
  received-OnlyOn l running h k = tt

  finishes-OnlyOn :
      (now : ℕ) (peer : PeerAddr) (id : ℕ) (t : env.transport.State)
      → OnlyOn t
      → Keeps OnlyOn (env.transport.finish_transaction now peer id t)
  finishes-OnlyOn now peer id t (q, h) =
      Keeps-weaken _ (λ t'. HasLog-OnlyOn (log t) t' h) (sender.finishes now peer id t q)

  pub Only-Preserved : Preserved env (λ ch. OnlyOn ch.transporter)
  Only-Preserved = record {
    receives = λ now ch (q, h).
        received-OnlyOn (log ch.transporter) _ h (sender.polls_recv now ch.transporter q);
    pops_none = λ now ch q e h. h;
    pops_unknown = λ now ch k q e u h. finishes-OnlyOn now k.0 k.1 ch.transporter h;
    times_out = λ now ch k q method tx e found h. finishes-OnlyOn now k.0 k.1 ch.transporter h;
    ends = λ now ch k method tx x found y h. finishes-OnlyOn now k.0 k.1 ch.transporter h;
  }
