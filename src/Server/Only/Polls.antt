-- ===== src/Server/Only/Polls.antt =====
-- A server with `BindingHandler` sends nothing but answers: src/server.rs, `HandlerDriver::poll`.
use rustun.Prelude.{
  ℕ, zero, suc, ◌≡◌, List, [], ◌∷◌, Outcome, Op, done, fail, panic, running, Keeps, Keeps-and_then,
  and_then, Keeps-weaken, Bool, true, false, Async, ready, not_ready, some, none, arith,
}
use rustun.Codec.{IsStunCodec}
use rustun.Error.{ErrorKind, error_from_transport}
use rustun.Message.ErrorResponse.{Response}
use rustun.Channel.{ChannelEnv, Channel}
use rustun.Channel.Poll
use rustun.Channel.Steps.Polls.{on_transport-KeepsOn, poll_recv-Preserved}
use rustun.Server.{HandlerDriver}
use rustun.Server.Binding.{Rfc5389}
use rustun.Server.Answers.{binding_server}
use rustun.Server.Driver.{
  DriverOp, Progress, did, ended, or_tell, on_received, handle_message, send_response,
  after_received, poll_round, poll_next, poll,
}
use rustun.Server.Only.{Sender, IsSender, OnlyOn, Only, HasLog-OnlyOn, Only-Preserved}
use rustun.Server.Only.Receives.{CameIn, Came, poll_recv-Came}
use rustun.Server.Only.Calls.{or_tell-Only, handle_message-Only}

module _ (env : ChannelEnv) (laws : IsStunCodec env.codec) (Future : Type 0)
    (rfc : Rfc5389 env.codec env.PeerAddr) (s : Sender env.transport)
    (sender : IsSender env.transport s) where
  open env use {codec, PeerAddr}
  open s use {log, Silent}

  on_received-Only :
      (now : ℕ) (x : Poll.Received env) (d : HandlerDriver (binding_server env Future rfc))
      → CameIn env laws Future rfc s sender x d.channel
      → Only env laws Future rfc s sender d
      → Keeps
          (Only env laws Future rfc s sender)
          (on_received (binding_server env Future rfc) now x d)
  unfolding on_received
  on_received-Only now not_ready d a h = h
  on_received-Only now (ready none) d a h = h
  on_received-Only now (ready (some (peer, m))) d a h =
      Keeps-and_then (handle_message (binding_server env Future rfc) now peer m d)
        (λ _ s. done (did true) s)
        (handle_message-Only env laws Future rfc s sender now peer m d a h) (λ _ s k. k)

  send_response-Only :
      (now : ℕ) (b : Bool) (l : List (PeerAddr × Response codec))
      (d : HandlerDriver (binding_server env Future rfc))
      → l ≡ []
      → Only env laws Future rfc s sender d
      → Keeps
          (Only env laws Future rfc s sender)
          (send_response (binding_server env Future rfc) now b l d)
  unfolding send_response
  send_response-Only now b [] d e h = h
  send_response-Only now b (x ∷ l) d e h = absurd (ground arith)

  after_received-Only :
      (now : ℕ) (p : Progress (binding_server env Future rfc))
      (d : HandlerDriver (binding_server env Future rfc))
      → Only env laws Future rfc s sender d
      → Keeps
          (Only env laws Future rfc s sender)
          (after_received (binding_server env Future rfc) now p d)
  unfolding after_received Poll.poll_send
  after_received-Only now ended d h = h
  after_received-Only now (did b) d ((q, h), e) =
      Keeps-and_then (or_tell (binding_server env Future rfc) (Poll.poll_send env now) d)
        (λ _ s. send_response (binding_server env Future rfc) now b s.response_rx s)
        (or_tell-Only env laws Future rfc s sender (Poll.poll_send env now) d
          (on_transport-KeepsOn env (λ ch. OnlyOn env laws Future rfc s sender ch.transporter)
            error_from_transport (env.transport.poll_send now) d.channel
            (Keeps-weaken _
              (λ t. HasLog-OnlyOn env laws Future rfc s sender (log d.channel.transporter) t h)
              (sender.polls_send now d.channel.transporter q)))
          e)
        (λ _ s k. send_response-Only now b s.response_rx s k.1 k)

  -- What the channel returns, given to the handler.
  received-Only :
      (now : ℕ) (m : Op ErrorKind (Channel env) (Poll.Received env))
      (d : HandlerDriver (binding_server env Future rfc))
      → Keeps (λ ch. OnlyOn env laws Future rfc s sender ch.transporter) (m d.channel)
      → Came env laws Future rfc s sender (m d.channel)
      → d.response_rx ≡ []
      → Keeps (Only env laws Future rfc s sender) (
          and_then
            (or_tell (binding_server env Future rfc) m d)
            (on_received (binding_server env Future rfc) now))
  received-Only now m d k a e = by_case (m d.channel) k a
    where
      by_case :
          (o : Outcome ErrorKind (Channel env) (Poll.Received env))
          → Keeps (λ ch. OnlyOn env laws Future rfc s sender ch.transporter) o
          → Came env laws Future rfc s sender o
          → Keeps (Only env laws Future rfc s sender) (
              and_then {A = Poll.Received env}
                (elim o [
                  | done a ch ↦ done a (record d { channel = ch })
                  | fail x ch ↦ fail x (record d { channel = ch })
                  | panic x ↦ panic x
                  | running ↦ running
                ])
                (on_received (binding_server env Future rfc) now))
      by_case (done x ch) k a = on_received-Only now x (record d { channel = ch }) a (k, e)
      by_case (fail x ch) k a = (k, e)
      by_case (panic x) k a = tt
      by_case running k a = tt

  poll_round-Only :
      (rounds now : ℕ) (d : HandlerDriver (binding_server env Future rfc))
      → Only env laws Future rfc s sender d
      → Keeps
          (Only env laws Future rfc s sender)
          (poll_round (binding_server env Future rfc) rounds now d)
  unfolding poll_round
  poll_round-Only rounds now d (h, e) =
      Keeps-and_then _ (after_received (binding_server env Future rfc) now)
        (received-Only now (Poll.poll_recv env rounds now) d
          (poll_recv-Preserved env (λ ch. OnlyOn env laws Future rfc s sender ch.transporter)
            (Only-Preserved env laws Future rfc s sender) rounds now d.channel h)
          (poll_recv-Came env laws Future rfc s sender rounds now d.channel h) e)
        (λ p s. after_received-Only now p s)

  poll_next-Only :
      (rest : DriverOp (binding_server env Future rfc) (Async (Unit {0})))
      (p : Progress (binding_server env Future rfc))
      (d : HandlerDriver (binding_server env Future rfc))
      → ((d : HandlerDriver (binding_server env Future rfc))
          → Only env laws Future rfc s sender d
          → Keeps (Only env laws Future rfc s sender) (rest d))
      → Only env laws Future rfc s sender d
      → Keeps
          (Only env laws Future rfc s sender)
          (poll_next (binding_server env Future rfc) rest p d)
  unfolding poll_next
  poll_next-Only rest ended d next h = h
  poll_next-Only rest (did false) d next h = h
  poll_next-Only rest (did true) d next h = next d h

  -- A server with `BindingHandler` that has sent nothing but answers, each to a request that had been
  -- received from the peer that it went to, sends nothing else in a poll, whatever arrives and whether
  -- the poll fails or not: a success response to a `BINDING` request, with the one attribute
  -- `XorMappedAddress` of that peer, or the error response `BadRequest` to any other request, with the
  -- method and the id of the request. The transport must send nothing of its own accord but requests
  -- again.
  pub poll-Only :
      (fuel rounds now : ℕ) (d : HandlerDriver (binding_server env Future rfc))
      → Only env laws Future rfc s sender d
      → Keeps
          (Only env laws Future rfc s sender)
          (poll (binding_server env Future rfc) fuel rounds now d)
  unfolding poll
  poll-Only zero rounds now d h = tt
  poll-Only (suc fuel) rounds now d h =
      Keeps-and_then (poll_round (binding_server env Future rfc) rounds now d)
        (poll_next (binding_server env Future rfc)
          (poll (binding_server env Future rfc) fuel rounds now))
        (poll_round-Only rounds now d h) (λ p s. poll_next-Only _ p s (poll-Only fuel rounds now))
