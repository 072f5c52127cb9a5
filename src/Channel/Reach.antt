-- ===== src/Channel/Reach.antt =====
-- The states that a channel can reach by calls, from the state that its builder makes.
use rustun.Prelude.{
  ℕ, ◌+◌, ◌≤◌, true, ◌≡◌, refl, Outcome, done, fail, panic, running, Keeps, Option, none, some,
  to_nat, ltb, arith, subst,
}
use rustun.Prelude.HashMap.{Unique, contains_key}
use rustun.Error.{message_error_from_transport, error_from_transport}
use rustun.Message.Request.{Request}
use rustun.Message.Indication.{Indication, into_message}
use rustun.Message.ErrorResponse.{Response}
use rustun.Channel.{
  ChannelEnv, Channel, ChannelBuilder, key_partial_eq, call, cast, reply, finish, response_message,
}
use rustun.Channel.Poll.{poll_send, poll_recv}
use rustun.Transport.{IsTimeoutQueue}
use rustun.Channel.Steps.{Closed}
use rustun.Channel.Steps.Polls.{on_transport-Keeps, poll_recv-Keeps}
use rustun.Channel.Timed.{Timed, Timed-Closed, call-Timed}
use rustun.Channel.Replies.{Answered, Answered-Closed, count_waiting, count_exits, call-Answered}

-- What an owner of a channel can do, but what it does to the transporter by `transporter_mut`.
pub data Use (env : ChannelEnv) : Type 0 where
  call_use : (now : ℕ) → env.PeerAddr → Request env.codec → Use env
  cast_use : (now : ℕ) → env.PeerAddr → Indication env.codec → Use env
  reply_use : (now : ℕ) → env.PeerAddr → Response env.codec → Use env
  poll_send_use : (now : ℕ) → Use env
  poll_recv_use : (rounds now : ℕ) → Use env

-- The state in which a call returned.
abbrev pub returned : {E S A : Type 0} → Outcome E S A → Option S
returned (done a s) = some s
returned (fail e s) = some s
returned (panic x) = none
returned running = none

pub returned-Keeps :
    {E S A : Type 0} (P : S → Type 0) (r : Outcome E S A) (s : S)
    → Keeps P r
    → returned r ≡ some s
    → P s
returned-Keeps P (done a s') s h e = let p : s' ≡ s = ground arith in subst P p h
returned-Keeps P (fail x s') s h e = let p : s' ≡ s = ground arith in subst P p h
returned-Keeps P (panic x) s h e = absurd (ground arith)
returned-Keeps P running s h e = absurd (ground arith)

module _ (env : ChannelEnv) where
  unfoldable pub use_channel : Use env → Channel env → Option (Channel env)
  use_channel (call_use now peer request) ch = returned (call env now peer request ch)
  use_channel (cast_use now peer indication) ch = returned (cast env now peer indication ch)
  use_channel (reply_use now peer response) ch = returned (reply env now peer response ch)
  use_channel (poll_send_use now) ch = returned (poll_send env now ch)
  use_channel (poll_recv_use rounds now) ch = returned (poll_recv env rounds now ch)

  -- The states of a channel over time.
  pub data Reach : Channel env → Type 0 where
    built : (b : ChannelBuilder) (t : env.transport.State) → Reach (finish env b t)
    used : {ch s : Channel env} (u : Use env) → Reach ch → use_channel u ch ≡ some s → Reach s

  pub use_channel-Keeps :
      (P : Channel env → Type 0) (closed : Closed env P) (u : Use env) (ch s : Channel env)
      → ((now : ℕ) (peer : env.PeerAddr) (request : Request env.codec)
          → u ≡ call_use now peer request
          → P ch
          → Keeps P (call env now peer request ch))
      → P ch
      → use_channel u ch ≡ some s
      → P s
  unfolding use_channel cast reply poll_send
  use_channel-Keeps P closed (call_use now peer request) ch s calls p e =
      returned-Keeps P (call env now peer request ch) s (calls now peer request refl p) e
  use_channel-Keeps P closed (cast_use now peer indication) ch s calls p e =
      returned-Keeps P (cast env now peer indication ch) s
        (on_transport-Keeps env P closed message_error_from_transport
          (env.transport.start_send now peer (into_message env.codec indication)) ch p)
        e
  use_channel-Keeps P closed (reply_use now peer response) ch s calls p e =
      returned-Keeps P (reply env now peer response ch) s
        (on_transport-Keeps env P closed message_error_from_transport
          (env.transport.start_send now peer (response_message env response)) ch p)
        e
  use_channel-Keeps P closed (poll_send_use now) ch s calls p e =
      returned-Keeps P (poll_send env now ch) s
        (on_transport-Keeps env P closed error_from_transport (env.transport.poll_send now) ch p) e
  use_channel-Keeps P closed (poll_recv_use rounds now) ch s calls p e =
      returned-Keeps P (poll_recv env rounds now ch) s
        (poll_recv-Keeps env P closed rounds now ch p) e

  -- In every state that a channel can reach, no two outstanding transactions have the same peer and
  -- transaction id. Each handle that `call` has returned either waits in exactly one outstanding
  -- transaction or has got exactly one result, never both; no other handle is waited for or answered.
  pub Reach-Answered :
      {ch : Channel env} (h : ℕ)
      → Reach ch
      → Unique ⦃e = key_partial_eq env⦄ ch.transactions
        × (count_waiting env h ch + count_exits h ch.exits ≡ to_nat (ltb h ch.next_handle))
  unfolding finish
  Reach-Answered h (built b t) = ground arith
  Reach-Answered {ch = s} h (used {ch = ch} u r e) =
      use_channel-Keeps (Answered env h) (Answered-Closed env h) u ch s
        (λ now peer request _. call-Answered env h now peer request ch) (Reach-Answered h r) e

  -- Each outstanding transaction of a channel that can be reached has an entry in the timeout queue.
  pub Reach-Timed :
      {ch : Channel env} (laws : IsTimeoutQueue env.timeouts) (peer : env.PeerAddr) (id : ℕ)
      → Reach ch
      → contains_key ⦃e = key_partial_eq env⦄ (peer, id) ch.transactions ≡ true
      → 1 ≤ laws.count (λ k. (key_partial_eq env).eq k (peer, id)) ch.timeout_queue
  unfolding finish
  Reach-Timed laws peer id (built b t) c = ground arith
  Reach-Timed {ch = s} laws peer id (used {ch = ch} u r e) c =
      use_channel-Keeps (Timed env laws (peer, id)) (Timed-Closed env laws (peer, id)) u ch s
        (λ now p request _. call-Timed env laws (peer, id) now p request ch)
        (Reach-Timed laws peer id r) e c
