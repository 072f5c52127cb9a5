-- ===== src/Stack/Rounds.antt =====
-- The transporter below a channel over UDP, and the rounds that its `poll_send` takes: src/channel.rs
-- and src/transport/udp.rs together.
use rustun.Prelude.{
  ◌≡◌, true, Outcome, done, fail, panic, running, duration_overflow, Keeps, refl, nat_partial_eq,
}
use rustun.Transport.Udp.{RetransmitTransporter}
use rustun.Transport.Udp.Rounds.{positive}
use rustun.Transport.Udp.Reach
use rustun.Transport.Udp.Reach.{
  Ended, in_state, ended, Call, start_send_call, poll_send_call, poll_recv_call,
  finish_transaction_call, call,
}
use rustun.Channel
use rustun.Channel.{Channel}
use rustun.Channel.Poll
use rustun.Channel.Below.{TransportKeeps, use_channel-Below}
use rustun.Stack.{UdpStack, udp_channel}
use rustun.Stack.Reach as StackReach
use rustun.Stack.Reach.{built, used}

module _ (u : UdpStack) where
  open u use {udp}

  Keeps-Reach :
      {E A : Type 0} (r : Outcome E (RetransmitTransporter udp) A)
      → ((s : RetransmitTransporter udp) → ended r ≡ in_state s → Reach.Reach udp s)
      → Keeps (Reach.Reach udp) r
  Keeps-Reach (done a s) f = f s refl
  Keeps-Reach (fail e s) f = f s refl
  Keeps-Reach (panic x) f = tt
  Keeps-Reach running f = tt

  pub Reach-Kept : TransportKeeps (udp_channel u) (Reach.Reach udp)
  unfolding call
  Reach-Kept = record {
    sends = λ now peer m t r. Keeps-Reach _ (λ s e. Reach.called (start_send_call now peer m) r e);
    polls_send = λ now t r. Keeps-Reach _ (λ s e. Reach.called (poll_send_call u.rounds now) r e);
    polls_recv = λ now t r. Keeps-Reach _ (λ s e. Reach.called (poll_recv_call now) r e);
    finishes = λ now peer id t r.
        Keeps-Reach _ (λ s e. Reach.called (finish_transaction_call now peer id) r e);
  }

  -- In every state that a channel over UDP can reach, its transporter is in a state that the
  -- transporter can reach by its own calls, from the state that its builder makes.
  pub Reach-transporter :
      {ch : Channel (udp_channel u)} → StackReach.Reach u ch → Reach.Reach udp ch.transporter
  unfolding Channel.finish
  Reach-transporter (built b ub inner) = Reach.built ub inner
  Reach-transporter {ch = s} (used {ch = ch} x c r e) =
      use_channel-Below (udp_channel u) (Reach.Reach udp) Reach-Kept x ch s (Reach-transporter r) e

  -- The transporter was built with an RTO that is not 0.
  abbrev pub HasRto : {ch : Channel (udp_channel u)} → StackReach.Reach u ch → Type 0
  HasRto (built b ub inner) = positive ub.rto ≡ true
  HasRto (used x c r e) = HasRto r

  -- The call returns, or a doubled duration overflows.
  abbrev pub Finishes : {E S A : Type 0} → Outcome E S A → Type 0
  Finishes (done a s) = Unit {0}
  Finishes (fail e s) = Unit {0}
  Finishes (panic x) = x ≡ duration_overflow
  Finishes running = ⊥
