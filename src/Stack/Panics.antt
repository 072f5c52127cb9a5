-- ===== src/Stack/Panics.antt =====
-- A channel over UDP does not panic but for an overflow: src/channel.rs and src/transport/udp.rs
-- together.
use rustun.Prelude.{◌≡◌, refl, Outcome, done, fail, panic, running, Panic, duration_overflow}
use rustun.Transport.{IsTransport, IsTimeoutQueue}
use rustun.Transport.Udp.Reach as UdpReach
use rustun.Transport.Udp.Reach.{
  ended, panicked, Call, start_send_call, poll_send_call, poll_recv_call, finish_transaction_call,
  call, call-ne-missing_key,
}
use rustun.Channel.{Channel}
use rustun.Channel.Reach.{Use}
use rustun.Channel.Panics.{Panics, TransportPanics, UsePanics}
use rustun.Channel.Panics.Uses.{use-Panics}
use rustun.Stack.{UdpStack, udp_channel}
use rustun.Stack.Reach.{Reach}
use rustun.Stack.Rounds.{Reach-Kept, Reach-transporter}

abbrev pub Overflows : Panic → Type 0
Overflows x = x ≡ duration_overflow

ended-Panics :
    {E S A : Type 0} (r : Outcome E S A)
    → ((x : Panic) → ended r ≡ panicked x → Overflows x)
    → Panics Overflows r
ended-Panics (done a s) f = tt
ended-Panics (fail e s) f = tt
ended-Panics (panic x) f = f x refl
ended-Panics running f = tt

module _ (u : UdpStack) (laws : IsTimeoutQueue u.udp.timeouts)
    (inner_laws : IsTransport u.udp.inner) where
  open u use {udp}

  udp-Panics : TransportPanics (udp_channel u) Overflows (UdpReach.Reach udp)
  unfolding call
  udp-Panics = record {
    keeps = Reach-Kept u;
    sends = λ now peer m t r.
        ended-Panics _
          (λ x e. call-ne-missing_key udp laws inner_laws (start_send_call now peer m) x r e);
    polls_send = λ now t r.
        ended-Panics _
          (λ x e. call-ne-missing_key udp laws inner_laws (poll_send_call u.rounds now) x r e);
    polls_recv = λ now t r.
        ended-Panics _ (λ x e. call-ne-missing_key udp laws inner_laws (poll_recv_call now) x r e);
    finishes = λ now peer id t r. ended-Panics _ (λ x e.
        call-ne-missing_key udp laws inner_laws (finish_transaction_call now peer id) x r e);
  }

  -- Whatever an owner does with a channel over UDP in a state that it can reach, it does not panic,
  -- but for the overflow of a duration that is doubled, if the calls of the inner transporter return.
  pub Reach-UsePanics :
      {ch : Channel (udp_channel u)} (x : Use (udp_channel u))
      → Reach u ch
      → UsePanics (udp_channel u) Overflows x ch
  Reach-UsePanics {ch} x r =
      use-Panics (udp_channel u) Overflows (UdpReach.Reach udp) udp-Panics x ch
        (Reach-transporter u r)
