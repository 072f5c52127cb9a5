-- ===== src/Client/Reach.antt =====
-- The states that the driver of a client can reach: src/client.rs.
use rustun.Prelude.{
  ℕ, Async, [], ◌∷◌, ◌++◌, subst, ◌≤◌, ◌≡◌, true, some, done, ok, err, arith, Result,
}
use rustun.Error.{ErrorKind}
use rustun.Channel
use rustun.Channel.{ChannelEnv, Channel, ChannelBuilder}
use rustun.Client
use rustun.Client.{Command, ChannelDriver, send}
use rustun.Client.Driver.{poll}
use rustun.Client.Replies.{Replied, count_waits, count_answers}
use rustun.Client.Replies.Commands.{poll-Replied}

module _ (env : ChannelEnv) where
  -- The driver of a new channel: a client sends a command, the clients drop, and the driver is polled.
  pub data Reach : ChannelDriver env → Type 0 where
    started :
        (b : ChannelBuilder) (t : env.transport.State)
        → Reach (Client.new env (Channel.finish env b t))
    sent :
        {d s : ChannelDriver env} (command : Command env)
        → Reach d
        → (send env command (some d)).1 ≡ some s
        → Reach s
    clients_dropped : {d : ChannelDriver env} → Reach d → Reach (record d { closed = true })
    polled :
        {d s : ChannelDriver env} {x : Async (Unit {0})} (fuel rounds now : ℕ)
        → Reach d
        → poll env fuel rounds now d ≡ done x s
        → Reach s

  Reach-Replied : {d : ChannelDriver env} (tx : ℕ) → Reach d → Replied env tx d
  unfolding Client.new Channel.finish send
  Reach-Replied tx (started b t) = ground arith
  Reach-Replied tx (sent {d = d} {s = s} command r e) =
      let p : record d { commands = d.commands ++ command ∷ [] } ≡ s = ground arith in
      subst (Replied env tx) p (Reach-Replied tx r)
  Reach-Replied tx (clients_dropped r) = Reach-Replied tx r
  Reach-Replied tx (polled {d = d} fuel rounds now r e) =
      rw e at (poll-Replied env tx fuel rounds now d (Reach-Replied tx r))

  Replied-answers :
      (tx : ℕ) (c : Result (Channel env) ErrorKind) (d : ChannelDriver env)
      → Replied env tx (record d { channel = c })
      → (count_waits env tx d.forwards ≡ count_answers env tx (record d { channel = c }))
        × (count_waits env tx d.forwards ≤ 1)
  Replied-answers tx (ok ch) d ((u, a), f, r) = ground (arith, a, f, r)
  Replied-answers tx (err e) d (f, r) = (omega arith, r)

  -- In every state that the driver of a client on a new channel can reach, and for each handle of the
  -- channel: the futures that wait for it, at most one, are as many as the outstanding transactions
  -- that wait to give it a result and the results that it has got, taken together; and when the channel
  -- was given up, as many as the results.
  pub Reach-answers :
      {d : ChannelDriver env} (tx : ℕ)
      → Reach d
      → (count_waits env tx d.forwards ≡ count_answers env tx d)
        × (count_waits env tx d.forwards ≤ 1)
  Reach-answers {d} tx r = Replied-answers tx d.channel d (Reach-Replied tx r)
