-- ===== src/Channel/Timeouts.antt =====
-- The timeouts of a channel: src/channel.rs, `handle_timeout`.
use rustun.Prelude.{
  ℕ, zero, suc, ◌≤◌, ◌<◌, ◌≡◌, refl, true, Option, none, some, done, fail, panic, running, Outcome,
  and_then, arith, length,
}
use rustun.Prelude.HashMap.{contains_key, length-remove-lt}
use rustun.Error.{ErrorKind}
use rustun.Transport.{IsTimeoutQueue, Returns}
use rustun.Channel.{ChannelEnv, Channel, ChannelOp, Key, key_partial_eq}
use rustun.Channel.Poll.{time_out, timeout_round, handle_timeout}

module _ (env : ChannelEnv) (laws : IsTimeoutQueue env.timeouts)
    (finishes : (now : ℕ) (peer : env.PeerAddr) (id : ℕ) (t : env.transport.State)
      → Returns (env.transport.finish_transaction now peer id t)) where
  -- A round that times out a transaction leaves fewer of them.
  abbrev ReturnsBelow : ℕ → Outcome ErrorKind (Channel env) (Unit {0}) → Type 0
  ReturnsBelow n (done _ s) = length s.transactions < n
  ReturnsBelow n (fail _ s) = Unit {0}
  ReturnsBelow n (panic x) = ⊥
  ReturnsBelow n running = ⊥

  time_out-Returns :
      (now : ℕ) (k : Key env) (ch : Channel env)
      → contains_key ⦃e = key_partial_eq env⦄ k ch.transactions ≡ true
      → ReturnsBelow (length ch.transactions) (time_out env now k ch)
  unfolding time_out
  time_out-Returns now (peer, id) ch h = ground (
    arith,
    finishes now peer id ch.transporter,
    length-remove-lt ⦃e = key_partial_eq env⦄ (peer, id) ch.transactions h,
  )

  timeout_round-Returns :
      (now n : ℕ) (rest : ChannelOp env ErrorKind (Unit {0})) (o : Option (Key env))
      (ch : Channel env)
      → ((k : Key env)
          → o ≡ some k
          → contains_key ⦃e = key_partial_eq env⦄ k ch.transactions ≡ true)
      → length ch.transactions ≤ n
      → ((s : Channel env) → length s.transactions < n → Returns (rest s))
      → Returns (timeout_round env now rest o ch)
  unfolding timeout_round
  timeout_round-Returns now n rest none ch live le next = tt
  timeout_round-Returns now n rest (some k) ch live le next =
      by_case (time_out env now k ch) (time_out-Returns now k ch (live k refl))
    where
      by_case :
          (r : Outcome ErrorKind (Channel env) (Unit {0}))
          → ReturnsBelow (length ch.transactions) r
          → Returns (and_then r (λ _. rest))
      by_case (done _ s) lt = next s (omega arith)
      by_case (fail e s) lt = tt
      by_case (panic x) lt = elim lt [ ]
      by_case running lt = elim lt [ ]

  -- The loop of `handle_timeout` ends: if the transport's `finish_transaction` returns, one round for
  -- each outstanding transaction and one more are enough for it to return.
  pub handle_timeout-Returns :
      (rounds now : ℕ) (ch : Channel env)
      → length ch.transactions < rounds
      → Returns (handle_timeout env rounds now ch)
  unfolding handle_timeout
  handle_timeout-Returns zero now ch h = absurd (omega arith)
  handle_timeout-Returns (suc rounds) now ch h =
      let keep = λ (k : Key env). contains_key ⦃e = key_partial_eq env⦄ k ch.transactions in
      timeout_round-Returns now rounds (handle_timeout env rounds now) _ _
        (λ k e. laws.filter_pop-keep keep now ch.timeout_queue k e) (omega arith)
        (handle_timeout-Returns rounds now)
