-- ===== src/Server/Idle.antt =====
-- The responses that wait to be sent: src/server.rs, `HandlerDriver::poll`.
use rustun.Prelude.{
  ℕ, zero, suc, ◌≡◌, refl, ap, sym, ◌∙◌, Bool, true, false, List, [], ◌∷◌, done, Async, not_ready,
  and_then-done, arith, ◌>>=◌,
}
use rustun.Error.{error_from_message}
use rustun.Message.ErrorResponse.{Response}
use rustun.Channel
use rustun.Channel.{Channel}
use rustun.Channel.Poll
use rustun.Server.{ServerEnv, HandlerDriver}
use rustun.Server.Driver.{
  DriverOp, Progress, ended, did, on_channel, or_tell, on_received, send_response, after_received,
  poll_round, poll_next, poll,
}

module _ (env : ServerEnv) where
  open env use {channel}
  open channel use {codec, PeerAddr}

  send_response-idle :
      (now : ℕ) (b : Bool) (l : List (PeerAddr × Response codec)) (d s : HandlerDriver env)
      → d.response_rx ≡ l
      → send_response env now b l d ≡ done (did false) s
      → s.response_rx ≡ []
  unfolding send_response
  send_response-idle now b [] d s e r =
      let p : d ≡ s = ground arith in sym (ap (λ d. d.response_rx) p) ∙ e
  send_response-idle now b ((peer, response) ∷ rest) d s e r =
      let (_, s', _, sent) =
        and_then-done
          (on_channel env error_from_message (Channel.reply channel now peer response)
            (record d { response_rx = rest }))
          (λ _ s. done (did true) s) (did false) s r in
      absurd (ground arith)

  after_received-idle :
      (now : ℕ) (p : Progress env) (d s : HandlerDriver env)
      → after_received env now p d ≡ done (did false) s
      → s.response_rx ≡ []
  unfolding after_received
  after_received-idle now ended d s r = absurd (ground arith)
  after_received-idle now (did b) d s r =
      let (_, d', _, sent) =
        and_then-done (or_tell env (Poll.poll_send channel now) d)
          (λ _ s. send_response env now b s.response_rx s) (did false) s r in
      send_response-idle now b d'.response_rx d' s refl sent

  poll_round-idle :
      (rounds now : ℕ) (d s : HandlerDriver env)
      → poll_round env rounds now d ≡ done (did false) s
      → s.response_rx ≡ []
  unfolding poll_round
  poll_round-idle rounds now d s r =
      let (p, d', _, after) =
        and_then-done ((or_tell env (Poll.poll_recv channel rounds now) >>= on_received env now) d)
          (after_received env now) (did false) s r in
      after_received-idle now p d' s after

  poll_next-idle :
      (rest : DriverOp env (Async (Unit {0}))) (p : Progress env) (d s : HandlerDriver env)
      → ((s : HandlerDriver env) → p ≡ did false → d ≡ s → s.response_rx ≡ [])
      → (rest d ≡ done not_ready s → s.response_rx ≡ [])
      → poll_next env rest p d ≡ done not_ready s
      → s.response_rx ≡ []
  unfolding poll_next
  poll_next-idle rest ended d s idle next r = absurd (ground arith)
  poll_next-idle rest (did false) d s idle next r = idle s refl (ground arith)
  poll_next-idle rest (did true) d s idle next r = next r

  pub poll-idle :
      (fuel rounds now : ℕ) (d s : HandlerDriver env)
      → poll env fuel rounds now d ≡ done not_ready s
      → s.response_rx ≡ []
  unfolding poll
  poll-idle zero rounds now d s r = absurd (ground arith)
  poll-idle (suc fuel) rounds now d s r =
      let (p, d', round, next) =
        and_then-done (poll_round env rounds now d) (poll_next env (poll env fuel rounds now))
          not_ready s r in
      poll_next-idle (poll env fuel rounds now) p d' s
        (λ s' e e'. poll_round-idle rounds now d s' (ground (arith, round, e, e')))
        (poll-idle fuel rounds now d' s) next
