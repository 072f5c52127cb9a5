-- ===== src/Server/Serves/Polls.antt =====
-- The driver of a server sends the responses that wait, in order: src/server.rs,
-- `HandlerDriver::poll`.
use mathlib.Core.List.{append_assoc, append-nil}
use rustun.Prelude.{
  ℕ, zero, suc, ◌≡◌, refl, ap, sym, ◌∙◌, Bool, true, false, List, [], ◌∷◌, subst, ◌++◌, done, Async,
  ready, not_ready, and_then-done, arith, ◌>>=◌,
}
use rustun.Error.{error_from_message}
use rustun.Message.ErrorResponse.{Response}
use rustun.Channel
use rustun.Channel.{Channel}
use rustun.Channel.Poll
use rustun.Channel.Reach.{use_channel, poll_recv_use, poll_send_use}
use rustun.Server.{ServerEnv, HandlerDriver}
use rustun.Server.Driver.{
  DriverOp, Progress, ended, did, on_channel, or_tell, on_received, send_response, after_received,
  poll_round, poll_next, poll,
}
use rustun.Server.Idle.{poll-idle}
use rustun.Server.Serves.{
  Sends, start, sent, From, From-equal, or_tell-From, on_channel-reply, on_received-From,
}

module _ (env : ServerEnv) where
  open env use {channel}
  open channel use {codec, PeerAddr}

  send_response-From :
      (now : ℕ) (all : List (PeerAddr × Response codec)) (c : Channel channel) (b : Bool)
      (l : List (PeerAddr × Response codec)) (p : Progress env) (d s : HandlerDriver env)
      → d.response_rx ≡ l
      → send_response env now b l d ≡ done p s
      → From env now all c d
      → From env now all c s
  unfolding send_response
  send_response-From now all c b [] p d s e r h = From-equal env now all c (did b) p d s r h
  send_response-From now all c b ((peer, x) ∷ rest) p d s e r (l, q, h) =
      let (_, s', replied, e') =
        and_then-done
          (on_channel env error_from_message (Channel.reply channel now peer x)
            (record d { response_rx = rest }))
          (λ _ s. done (did true) s) p s r in
      let (took, rx) =
        on_channel-reply env now peer x (record d { response_rx = rest }) s' replied in
      From-equal env now all c (did true) p s' s e' (
        l ++ (peer, x) ∷ [],
        q
            ∙ ap (λ k. l ++ k) e
            ∙ sym (append_assoc l ((peer, x) ∷ []) rest)
            ∙ ap (λ k. (l ++ (peer, x) ∷ []) ++ k) (sym rx),
        sent peer x h took,
      )

  after_received-From :
      (now : ℕ) (all : List (PeerAddr × Response codec)) (c : Channel channel) (x p : Progress env)
      (d s : HandlerDriver env)
      → after_received env now x d ≡ done p s
      → From env now all c d
      → From env now all c s
  unfolding after_received use_channel
  after_received-From now all c ended p d s r h = From-equal env now all c ended p d s r h
  after_received-From now all c (did b) p d s r h =
      let (v, d', polled, e) =
        and_then-done (or_tell env (Poll.poll_send channel now) d)
          (λ _ s. send_response env now b s.response_rx s) p s r in
      send_response-From now all c b d'.response_rx p d' s refl e (
        or_tell-From env now all c (Poll.poll_send channel now) (poll_send_use now) v d d' refl
          polled h)

  poll_round-From :
      (rounds now : ℕ) (all : List (PeerAddr × Response codec)) (c : Channel channel)
      (p : Progress env) (d s : HandlerDriver env)
      → poll_round env rounds now d ≡ done p s
      → From env now all c d
      → From env now all c s
  unfolding poll_round use_channel
  poll_round-From rounds now all c p d s r h =
      let receive = or_tell env (Poll.poll_recv channel rounds now) in
      let (x, d', first, rest) =
        and_then-done ((receive >>= on_received env now) d) (after_received env now) p s r in
      let (v, d'', polled, received) = and_then-done (receive d) (on_received env now) x d' first in
      after_received-From now all c x p d' s rest (
        on_received-From env now all c v x d'' d' received (
          or_tell-From env now all c (Poll.poll_recv channel rounds now) (poll_recv_use rounds now)
            v d d'' refl polled h))

  poll_next-From :
      (now : ℕ) (all : List (PeerAddr × Response codec)) (c : Channel channel)
      (rest : DriverOp env (Async (Unit {0}))) (p : Progress env) (a : Async (Unit {0}))
      (d s : HandlerDriver env)
      → (rest d ≡ done a s → From env now all c d → From env now all c s)
      → poll_next env rest p d ≡ done a s
      → From env now all c d
      → From env now all c s
  unfolding poll_next
  poll_next-From now all c rest ended a d s next r h = From-equal env now all c (ready tt) a d s r h
  poll_next-From now all c rest (did false) a d s next r h =
      From-equal env now all c not_ready a d s r h
  poll_next-From now all c rest (did true) a d s next r h = next r h

  poll-From :
      (fuel rounds now : ℕ) (all : List (PeerAddr × Response codec)) (c : Channel channel)
      (a : Async (Unit {0})) (d s : HandlerDriver env)
      → poll env fuel rounds now d ≡ done a s
      → From env now all c d
      → From env now all c s
  unfolding poll
  poll-From zero rounds now all c a d s r h = absurd (ground arith)
  poll-From (suc fuel) rounds now all c a d s r h =
      let (p, d', round, next) =
        and_then-done (poll_round env rounds now d) (poll_next env (poll env fuel rounds now)) a s
          r in
      poll_next-From now all c (poll env fuel rounds now) p a d' s
        (λ e k. poll-From fuel rounds now all c a d' s e k) next
        (poll_round-From rounds now all c p d d' round h)

  -- If the driver of a server has nothing more to do for now, its channel has taken, in their order
  -- and among other replies and polls, the replies with all of the responses that waited to be sent,
  -- and none of them waits any longer.
  pub poll-Serves :
      (fuel rounds now : ℕ) (d s : HandlerDriver env)
      → poll env fuel rounds now d ≡ done not_ready s
      → Sends env now d.channel d.response_rx s.channel × (s.response_rx ≡ [])
  poll-Serves fuel rounds now d s r =
      let (l, e, h) =
        poll-From fuel rounds now d.response_rx d.channel not_ready d s r ([], refl, start) in
      let idle = poll-idle env fuel rounds now d s r in
      let p : l ≡ d.response_rx = sym (e ∙ ap (λ k. l ++ k) idle ∙ append-nil l) in
      (subst (λ k. Sends env now d.channel k s.channel) p h, idle)
